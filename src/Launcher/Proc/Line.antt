-- ===== src/Launcher/Proc/Line.antt =====
-- The stat line as the kernel prints it, in front of the code's parser.
use serena_de.CString.Decimal.{Fits, atoi-int_onto, strtoull-int_onto}
use serena_de.CString.Equality.{split_at-append}
use serena_de.CString.Search.{Differs, split_last-append, c_string-clean}
use serena_de.CString.{CString, int_onto, c_string, is_digit}
use serena_de.Launcher.Proc.Fields.{
  fields, suffixes, tokens-blank, tokens-fields, fields-Outside, fields-Ends, get_elem?-suffixes,
}
use serena_de.Launcher.Proc.{
  File, tokens, stat_of, starttime, creation_time, parse_line, parse_proc_stat, read_small_file,
}
use serena_de.Prelude.Int.{ℤ, pos}
use serena_de.Prelude.{
  suc, take, drop, take-length, ℕ, ◌<◌, ◌^◌, ◌≡◌, ◌≢◌, refl, ap, ◌∙◌, List, [], ◌∷◌, ◌++◌, All,
  arith, some, List, length, get_elem?, take-all, inr,
}

-- `before (comm) state numbers`
abbrev pub stat_line : CString → CString → ℕ → List ℤ → CString
stat_line before name state numbers =
    before ++ b'(' ∷ (name ++ b')' ∷ b' ' ∷ state ∷ fields numbers)

drop-suc : (xs : CString) (c : ℕ) (ys : CString) → drop (suc (length xs)) (xs ++ c ∷ ys) ≡ ys
drop-suc [] c ys = refl
drop-suc (x ∷ xs) c ys = drop-suc xs c ys

tokens-line :
    (state : ℕ) (z : ℤ) (zs : List ℤ)
    → state ≢ b' '
    → tokens 32 (b' ' ∷ state ∷ fields (z ∷ zs)) ≡ (state ∷ fields (z ∷ zs)) ∷ suffixes 31 (z ∷ zs)
tokens-line state z zs h =
    tokens-blank 31 (state ∷ []) (int_onto (fields zs) z) tt (h, tt)
    ∙ ap (λ r. (state ∷ fields (z ∷ zs)) ∷ r) (tokens-fields 31 (z ∷ zs) tt)

parse_line-stat_line :
    (hz : ℤ) (proc_stat : File) (before name : CString) (state : ℕ) (z : ℤ) (zs : List ℤ)
    → All (Differs b'(') before
    → state ≢ b' '
    → state ≢ b')'
    → parse_line hz proc_stat (stat_line before name state (z ∷ zs))
      ≡ stat_of hz proc_stat
          (suc (length before))
          (length name)
          ((state ∷ fields (z ∷ zs)) ∷ suffixes 31 (z ∷ zs))
unfolding parse_line
parse_line-stat_line hz proc_stat before name state z zs hb hs hp =
    rw
      (
        parse_line,
        split_at-append b'(' before (name ++ b')' ∷ b' ' ∷ state ∷ fields (z ∷ zs)) hb,
        split_last-append b')' name (b' ' ∷ state ∷ fields (z ∷ zs))
            (omega arith, (hp, fields-Outside b')' (inr (omega arith, omega arith)) (z ∷ zs))),
        tokens-line state z zs hs,
      )
      refl

starttime-suffixes :
    (s : CString) (zs : List ℤ) (ticks : ℕ)
    → get_elem? zs 18 ≡ some (pos ticks)
    → ticks < 2 ^ 64
    → starttime (s ∷ suffixes 31 zs) ≡ ticks
starttime-suffixes s zs ticks e h =
    let (rest, found) = get_elem?-suffixes 31 zs 18 (pos ticks) (omega arith) e in
    rw (starttime, found) (strtoull-int_onto (fields rest) ticks h (fields-Ends rest))

stat_of-suffixes :
    (hz : ℤ) (proc_stat : File) (start size : ℕ) (s : CString) (ppid pgid sid : ℤ) (more : List ℤ)
    (ticks : ℕ)
    → Fits ppid
    → Fits pgid
    → Fits sid
    → get_elem? more 15 ≡ some (pos ticks)
    → ticks < 2 ^ 64
    → stat_of hz proc_stat start size (s ∷ suffixes 31 (ppid ∷ pgid ∷ sid ∷ more))
      ≡ some (record {
        comm_start = start;
        comm_length = size;
        ppid = ppid;
        pgid = pgid;
        sid = sid;
        creation_ns = creation_time hz proc_stat ticks;
      })
unfolding stat_of is_digit
stat_of-suffixes hz proc_stat start size s ppid pgid sid more ticks h1 h2 h3 e ht =
    rw
      (
        atoi-int_onto (fields (pgid ∷ sid ∷ more)) ppid h1 refl,
        atoi-int_onto (fields (sid ∷ more)) pgid h2 refl,
        atoi-int_onto (fields more) sid h3 (fields-Ends more),
        starttime-suffixes s (ppid ∷ pgid ∷ sid ∷ more) ticks e ht,
      )
      refl

-- The kernel's line for a process, of which the name may hold blanks, parentheses and whatever else
-- but a NUL, is read back: the place and the length of the whole name in the line, parent, group and
-- session, and the creation time of the start in the twentieth field behind the name. The line has fewer than 4096 bytes, no NUL, and no
-- opening parenthesis in front of the name's; the state is neither a blank nor a closing
-- parenthesis; the three numbers fit an `int`, and the start 64 bits.
pub parse_proc_stat-stat_line :
    (hz : ℤ) (proc_stat : File) (before name : CString) (state : ℕ) (ppid pgid sid : ℤ)
    (more : List ℤ) (ticks : ℕ)
    → All (Differs b'(') before
    → state ≢ b' '
    → state ≢ b')'
    → Fits ppid
    → Fits pgid
    → Fits sid
    → get_elem? more 15 ≡ some (pos ticks)
    → ticks < 2 ^ 64
    → All (Differs 0) (stat_line before name state (ppid ∷ pgid ∷ sid ∷ more))
    → length (stat_line before name state (ppid ∷ pgid ∷ sid ∷ more)) < 4096
    → let line = stat_line before name state (ppid ∷ pgid ∷ sid ∷ more) in
      (parse_proc_stat hz proc_stat (some line)
        ≡ some (record {
          comm_start = suc (length before);
          comm_length = length name;
          ppid = ppid;
          pgid = pgid;
          sid = sid;
          creation_ns = creation_time hz proc_stat ticks;
        }))
      × (take (length name) (drop (suc (length before)) line) ≡ name)
unfolding parse_proc_stat read_small_file
parse_proc_stat-stat_line hz ps before name state ppid pgid sid more ticks hb hs hp h1 h2 h3 e ht
      clean short =
    let line = stat_line before name state (ppid ∷ pgid ∷ sid ∷ more) in
    (
      ap (λ s. parse_line hz ps (c_string s)) (take-all 4095 line (omega arith))
          ∙ ap (parse_line hz ps) (c_string-clean line clean)
          ∙ parse_line-stat_line hz ps before name state ppid (pgid ∷ sid ∷ more) hb hs hp
          ∙ stat_of-suffixes hz ps (suc (length before)) (length name) _ ppid pgid sid more ticks h1
              h2 h3 e ht,
      ap (take (length name)) (drop-suc before b'(' _) ∙ take-length name _,
    )
