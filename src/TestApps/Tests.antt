-- ===== src/TestApps/Tests.antt =====
-- A clipboard that is a text.
use serena_de.CString.{CString}
use serena_de.Prelude.{true}
use serena_de.TestApps.{ClipboardApi}

abbrev clipboard : ClipboardApi
clipboard = record {
  State = CString;
  set_plain_text = λ message s. message;
  fetch = λ s. s;
  is_utf8 = λ message. true;
}
