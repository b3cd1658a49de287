-- ===== src/CoreDump/Tests.antt =====
-- A reference binary of two segments, for a layout with small headers.
use serena_de.CString.{text, c_string, equal}
use serena_de.CoreDump.Segments.{AllHold, HasSizes, load_contents, main-AllHold}
use serena_de.CoreDump.{
  ElfLayout, Reference, find_symbol, find_value, section_named, main, notes, program_headers,
  stack_data,
}
use serena_de.Prelude.{ℕ, ◌≡◌, refl, Every, List, [], ◌∷◌, some, true}

abbrev zero_header : List ℕ
zero_header = 0 ∷ 0 ∷ 0 ∷ 0 ∷ 0 ∷ 0 ∷ 0 ∷ 0 ∷ []

abbrev layout : ElfLayout
layout = record {
  ehdr_size = 8;
  phdr_size = 2;
  ehdr = λ n. zero_header;
  phdr = λ p. p.offset ∷ p.filesz ∷ [];
  note_header = λ namesz. namesz ∷ 0 ∷ 0 ∷ 0 ∷ zero_header;
  process_header = 1 ∷ [];
  thread_info = λ rip rbp rsp. 2 ∷ rip ∷ rbp ∷ rsp ∷ [];
  region_info = λ first behind index. 3 ∷ first ∷ behind ∷ index ∷ [];
  metadata = 4 ∷ [];
  null_entry = 0 ∷ [];
}

layout-HasSizes : HasSizes layout
layout-HasSizes = record { ehdr_size = λ n. refl; phdr_size = λ p. refl }

abbrev reference : Reference
reference = record {
  sections =
      record {
        name = text ".symtab";
        bytes = [];
        symbols =
            record { st_name = 1; st_value = 4096 } ∷ record { st_name = 6; st_value = 4160 } ∷ [];
      }
      ∷ record {
        name = text ".strtab";
        bytes = 0 ∷ 109 ∷ 97 ∷ 105 ∷ 110 ∷ 0 ∷ text "_Z11inner_crashv";
        symbols = [];
      }
      ∷ [];
  segments = record { start = 4096; size = 16 } ∷ record { start = 8192; size = 3 } ∷ [];
}

-- Both symbols are found.
find_symbol_test : find_symbol reference (text "_Z11inner_crashv") ≡ 4160
unfolding find_symbol section_named find_value equal c_string
find_symbol_test = refl

main-AllHold_example :
    Every
      (λ file.
        AllHold file
          (program_headers layout
            (text "/bin/f")
            (find_symbol reference (text "_Z11inner_crashv"))
            reference.segments)
          (load_contents reference.segments (
            stack_data (find_symbol reference (text "main"))
            ∷ notes layout
                (text "/bin/f")
                (find_symbol reference (text "_Z11inner_crashv"))
                reference.segments
            ∷ [])))
      (main layout (text "/bin/f") (some reference) true)
main-AllHold_example = main-AllHold layout layout-HasSizes (text "/bin/f") reference true
