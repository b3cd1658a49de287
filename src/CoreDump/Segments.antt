-- ===== src/CoreDump/Segments.antt =====
-- The segments in the file of src/TestApps/coredump_fixture.cpp.
use mathlib.Core.List.{append-nil, append_assoc}
use mathlib.Core.Path.{ap₂}
use serena_de.CString.{CString, text}
use serena_de.CoreDump.Sizes.{length-zeros, length-stack_data}
use serena_de.CoreDump.{
  ProgramHeader, ElfLayout, ExeSegment, load_header, stack_header, note_phdr, load_headers,
  offset_behind, zeros, stack_data, stack_size, notes, data_offset, program_headers, header_bytes,
  zero_data, core_file, main, find_symbol, Reference,
}
use serena_de.Prelude.{
  drop-length, take-length, none, some, Every, if-Every, ◌==◌, ◌||◌, ℕ, ◌+◌, ◌*◌, ◌≡◌, refl, sym,
  ap, ◌∙◌, Bool, List, [], ◌∷◌, ◌++◌, length, take, drop, length-append, arith, subst,
}

-- The bytes of the file at a program header's offset, as many as it says, are these.
abbrev pub Holds : List ℕ → ProgramHeader → List ℕ → Type 0
Holds file p content = (p.filesz ≡ length content) × (take p.filesz (drop p.offset file) ≡ content)

-- The program headers and their contents, in order.
abbrev pub AllHold : List ℕ → List ProgramHeader → List (List ℕ) → Type 0
AllHold file [] [] = Unit
AllHold file (p ∷ ps) (c ∷ cs) = Holds file p c × AllHold file ps cs
AllHold file _ _ = ⊥

-- The structs have their sizes.
pub record HasSizes (elf : ElfLayout) : Type 0 where
  pub ehdr_size : (n : ℕ) → length (elf.ehdr n) ≡ elf.ehdr_size
  pub phdr_size : (p : ProgramHeader) → length (elf.phdr p) ≡ elf.phdr_size

-- What stands behind `before` and in front of `after`.
Holds-middle :
    (before content after : List ℕ) (p : ProgramHeader)
    → p.offset ≡ length before
    → p.filesz ≡ length content
    → Holds (before ++ (content ++ after)) p content
Holds-middle before content after p o s = (
  s,
  ap (λ (k : ℕ). take p.filesz (drop k (before ++ (content ++ after)))) o
      ∙ ap (take p.filesz) (drop-length before (content ++ after))
      ∙ ap (λ (k : ℕ). take k (content ++ after)) s
      ∙ take-length content after,
)

abbrev pub load_contents : List ExeSegment → List (List ℕ) → List (List ℕ)
load_contents [] more = more
load_contents (s ∷ ss) more = zeros s.size ∷ load_contents ss more

length-zero_data :
    (offset : ℕ) (ss : List ExeSegment) → offset_behind offset ss ≡ offset + length (zero_data ss)
unfolding offset_behind zero_data
length-zero_data offset [] = omega arith
length-zero_data offset (s ∷ ss) =
    length-zero_data (offset + s.size) ss
    ∙ omega (arith, length-append (zeros s.size) (zero_data ss), length-zeros s.size)

-- The executable segments behind `before`, and the headers `ps` of what follows.
load_headers-AllHold :
    (ss : List ExeSegment) (before after : List ℕ) (offset : ℕ) (ps : List ProgramHeader)
    (cs : List (List ℕ))
    → offset ≡ length before
    → AllHold (before ++ (zero_data ss ++ after)) ps cs
    → AllHold
        (before ++ (zero_data ss ++ after))
        (load_headers offset ss ++ ps)
        (load_contents ss cs)
unfolding load_headers zero_data
load_headers-AllHold [] before after offset ps cs o h = h
load_headers-AllHold (s ∷ ss) before after offset ps cs o h =
    let inner : before ++ ((zeros s.size ++ zero_data ss) ++ after)
        ≡ before ++ (zeros s.size ++ (zero_data ss ++ after)) =
      ap (λ r. before ++ r) (append_assoc (zeros s.size) (zero_data ss) after) in
    let outer : before ++ ((zeros s.size ++ zero_data ss) ++ after)
        ≡ (before ++ zeros s.size) ++ (zero_data ss ++ after) =
      inner ∙ sym (append_assoc before (zeros s.size) (zero_data ss ++ after)) in
    (
      subst (λ f. Holds f (load_header offset s) (zeros s.size)) (sym inner)
          (Holds-middle before (zeros s.size) (zero_data ss ++ after) (load_header offset s) o
            (sym (length-zeros s.size))),
      subst (λ f. AllHold f (load_headers (offset + s.size) ss ++ ps) (load_contents ss cs))
          (sym outer)
          (load_headers-AllHold ss (before ++ zeros s.size) after (offset + s.size) ps cs
            (omega (arith, o, length-append before (zeros s.size), length-zeros s.size))
            (subst (λ f. AllHold f ps cs) outer h)),
    )

length-header_bytes :
    (elf : ElfLayout)
    → HasSizes elf
    → (ps : List ProgramHeader) → length (header_bytes elf ps) ≡ length ps * elf.phdr_size
unfolding header_bytes
length-header_bytes elf sizes [] = omega arith
length-header_bytes elf sizes (p ∷ ps) = omega (
  arith,
  length-append (elf.phdr p) (header_bytes elf ps),
  sizes.phdr_size p,
  length-header_bytes elf sizes ps,
)

length-load_headers :
    (offset : ℕ) (ss : List ExeSegment) (ps : List ProgramHeader)
    → length (load_headers offset ss ++ ps) ≡ length ss + length ps
unfolding load_headers
length-load_headers offset [] ps = omega arith
length-load_headers offset (s ∷ ss) ps = omega (arith, length-load_headers (offset + s.size) ss ps)

-- The segments, the stack and the notes behind `before`.
layout-AllHold :
    (before : List ℕ) (ss : List ExeSegment) (stack note : List ℕ) (offset : ℕ)
    → offset ≡ length before
    → length stack ≡ stack_size
    → AllHold
        (before ++ (zero_data ss ++ (stack ++ note)))
        (load_headers offset ss
          ++ stack_header (offset_behind offset ss)
            ∷ note_phdr (offset_behind offset ss + stack_size) (length note)
            ∷ [])
        (load_contents ss (stack ∷ note ∷ []))
layout-AllHold before ss stack note offset o size =
    let whole = before ++ (zero_data ss ++ (stack ++ note)) in
    let at_stack : whole ≡ (before ++ zero_data ss) ++ (stack ++ note) =
      sym (append_assoc before (zero_data ss) (stack ++ note)) in
    let at_note : whole ≡ ((before ++ zero_data ss) ++ stack) ++ (note ++ []) =
      at_stack
      ∙ sym (append_assoc (before ++ zero_data ss) stack note)
      ∙ ap (λ r. ((before ++ zero_data ss) ++ stack) ++ r) (sym (append-nil note)) in
    let behind : offset_behind offset ss ≡ length (before ++ zero_data ss) =
      length-zero_data offset ss ∙ omega (arith, o, length-append before (zero_data ss)) in
    load_headers-AllHold ss before (stack ++ note) offset _ (stack ∷ note ∷ []) o (
      subst (λ f. Holds f (stack_header (offset_behind offset ss)) stack) (sym at_stack)
          (Holds-middle (before ++ zero_data ss) stack note (stack_header (offset_behind offset ss))
            behind (sym size)),
      (
        subst (λ f. Holds f (note_phdr (offset_behind offset ss + stack_size) (length note)) note)
            (sym at_note)
            (Holds-middle ((before ++ zero_data ss) ++ stack) note []
              (note_phdr (offset_behind offset ss + stack_size) (length note))
              (omega (arith, behind, size, length-append (before ++ zero_data ss) stack)) refl),
        tt,
      ),
    )

module _ (elf : ElfLayout) (sizes : HasSizes elf) (path : CString) where
  abbrev front : ℕ → List ExeSegment → List ℕ
  front inner_crash ss =
      elf.ehdr (length ss + 2) ++ header_bytes elf (program_headers elf path inner_crash ss)

  length-front :
      (inner_crash : ℕ) (ss : List ExeSegment)
      → data_offset elf path ss ≡ length (front inner_crash ss)
  unfolding program_headers
  length-front inner_crash ss = sym (
      length-append (elf.ehdr (length ss + 2))
        (header_bytes elf (program_headers elf path inner_crash ss))
      ∙ ap₂ (λ (n k : ℕ). n + k) (sizes.ehdr_size (length ss + 2))
          (length-header_bytes elf sizes (program_headers elf path inner_crash ss)
            ∙ ap (λ (n : ℕ). n * elf.phdr_size)
                (length-load_headers (data_offset elf path ss) ss _)))

  core_file-AllHold :
      (inner_crash main_address : ℕ) (ss : List ExeSegment)
      → AllHold
          (core_file elf path inner_crash main_address ss)
          (program_headers elf path inner_crash ss)
          (load_contents ss (stack_data main_address ∷ notes elf path inner_crash ss ∷ []))
  unfolding core_file program_headers
  core_file-AllHold inner_crash main_address ss =
      subst
        (λ f.
          AllHold f (program_headers elf path inner_crash ss)
            (load_contents ss (stack_data main_address ∷ notes elf path inner_crash ss ∷ [])))
        (append_assoc (elf.ehdr (length ss + 2))
          (header_bytes elf (program_headers elf path inner_crash ss)) _)
        (layout-AllHold (front inner_crash ss) ss (stack_data main_address)
          (notes elf path inner_crash ss) (data_offset elf path ss) (length-front inner_crash ss)
          (length-stack_data main_address))

  -- In the file that main writes, every program header says where its segment's bytes are and how
  -- many: those of the executable segments are zeros, as many as each segment of the reference binary
  -- has, then come the stack and the notes. That holds for structs of any layout with fixed sizes.
  pub main-AllHold :
      (r : Reference) (opens : Bool)
      → Every
          (λ file.
            AllHold file
              (program_headers elf path (find_symbol r (text "_Z11inner_crashv")) r.segments)
              (load_contents r.segments (
                stack_data (find_symbol r (text "main"))
                ∷ notes elf path (find_symbol r (text "_Z11inner_crashv")) r.segments
                ∷ [])))
          (main elf path (some r) opens)
  unfolding main
  main-AllHold r opens =
      if-Every _ (find_symbol r (text "_Z11inner_crashv") == 0 || find_symbol r (text "main") == 0)
        none _ tt
        (if-Every _ (length r.segments == 0) none _ tt (
          if-Every _ opens _ none
            (core_file-AllHold (find_symbol r (text "_Z11inner_crashv"))
              (find_symbol r (text "main")) r.segments)
            tt))
