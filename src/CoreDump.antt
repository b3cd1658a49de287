-- ===== src/CoreDump.antt =====
-- src/TestApps/coredump_fixture.cpp, which writes a core file for a test. The structs of LibELF are
-- not in the repository: their bytes, and what the reference binary's headers say, are parameters.
-- Addresses and sizes are those of a file, which no sum takes past 64 bits.
pub mod Sizes
pub mod Segments
mod Tests
use serena_de.CString.{CString, text, c_string, equal, int_onto}
use serena_de.Prelude.Int.{pos}
use serena_de.Prelude.{
  ℕ, zero, suc, ◌+◌, ◌-◌, ◌*◌, ◌/◌, ◌%◌, ◌^◌, Bool, true, false, ◌||◌, List, [], ◌∷◌, ◌++◌, Option,
  none, some, foldl, length, take, drop, get_elem?, ◌==◌, ltb, if◌then◌else◌,
}

-- A program header, but for the fields that are zero, and p_memsz, which is p_filesz.
pub data SegmentType : Type 0 where
  pt_load pt_note : SegmentType

pub record ProgramHeader : Type 0 where
  pub type : SegmentType
  pub executable : Bool
  pub offset : ℕ
  pub vaddr : ℕ
  pub filesz : ℕ

-- The bytes of the structs: an ELF header for a number of program headers, a note's header without
-- its descsz, and the entries of the notes.
pub record ElfLayout : Type 0 where
  pub ehdr_size : ℕ
  pub phdr_size : ℕ
  pub ehdr : ℕ → List ℕ
  pub phdr : ProgramHeader → List ℕ
  pub note_header : ℕ → List ℕ
  pub process_header : List ℕ
  -- rip, rbp and rsp
  pub thread_info : ℕ → ℕ → ℕ → List ℕ
  -- the start, the end and the program header's index
  pub region_info : ℕ → ℕ → ℕ → List ℕ
  pub metadata : List ℕ
  pub null_entry : List ℕ

pub record Symbol : Type 0 where
  pub st_name : ℕ
  pub st_value : ℕ

-- A section as bytes, and as the entries of a symbol table.
pub record Section : Type 0 where
  pub name : CString
  pub bytes : List ℕ
  pub symbols : List Symbol

pub record ExeSegment : Type 0 where
  pub start : ℕ
  pub size : ℕ

-- The reference binary: its sections and its program headers of type PT_LOAD.
pub record Reference : Type 0 where
  pub sections : List Section
  pub segments : List ExeSegment

-- The last section of a name.
unfoldable pub section_named : CString → List Section → Option Section
section_named name [] = none
section_named name (s ∷ ss) = elim (section_named name ss) [
  | some t ↦ some t
  | none ↦ if equal s.name name then some s else none
]

unfoldable pub find_value : List ℕ → CString → List Symbol → ℕ
find_value strtab name [] = 0
find_value strtab name (s ∷ ss) =
    let rest = find_value strtab name ss in
    if equal (c_string (drop s.st_name strtab)) name then s.st_value else rest

unfoldable pub find_symbol : Reference → CString → ℕ
find_symbol r name = elim (section_named (text ".symtab") r.sections) [
  | none ↦ 0
  | some symtab ↦ elim (section_named (text ".strtab") r.sections) [
    | none ↦ 0
    | some strtab ↦ find_value strtab.bytes name symtab.symbols
  ]
]

abbrev pub stack_base : ℕ
stack_base = 0x10000000

abbrev pub stack_size : ℕ
stack_size = 0x1000

abbrev pub load_header : ℕ → ExeSegment → ProgramHeader
load_header offset s = record {
  type = pt_load;
  executable = true;
  offset = offset;
  vaddr = s.start;
  filesz = s.size;
}

abbrev pub stack_header : ℕ → ProgramHeader
stack_header offset = record {
  type = pt_load;
  executable = false;
  offset = offset;
  vaddr = stack_base;
  filesz = stack_size;
}

abbrev pub note_phdr : ℕ → ℕ → ProgramHeader
note_phdr offset size = record {
  type = pt_note;
  executable = false;
  offset = offset;
  vaddr = 0;
  filesz = size;
}

-- The headers of the executable segments, from a file offset on, and the offset behind them.
unfoldable pub load_headers : ℕ → List ExeSegment → List ProgramHeader
load_headers offset [] = []
load_headers offset (s ∷ ss) = load_header offset s ∷ load_headers (offset + s.size) ss

unfoldable pub offset_behind : ℕ → List ExeSegment → ℕ
offset_behind offset [] = offset
offset_behind offset (s ∷ ss) = offset_behind (offset + s.size) ss

unfoldable pub zeros : ℕ → List ℕ
zeros zero = []
zeros (suc n) = 0 ∷ zeros n

-- `bytes[i] = v`
unfoldable pub update : ℕ → ℕ → List ℕ → List ℕ
update i v [] = []
update zero v (x ∷ xs) = v ∷ xs
update (suc i) v (x ∷ xs) = x ∷ update i v xs

-- A value's bytes, the lowest first, so many from an offset on.
unfoldable pub write_bytes : ℕ → ℕ → ℕ → List ℕ → List ℕ
write_bytes zero offset value bytes = bytes
write_bytes (suc count) offset value bytes =
    write_bytes count (offset + 1) (value / 256) (update offset (value % 256) bytes)

unfoldable pub stack_data : ℕ → List ℕ
unfolding write_bytes zeros
stack_data main_address = write_bytes 8 0x208 0 (
    write_bytes 8 0x200 0 (
      write_bytes 8 0x108 (main_address + 8)
        (write_bytes 8 0x100 (stack_base + 0x200) (zeros stack_size))))

-- mod(-n, 4) zeros.
abbrev pub padding : ℕ → List ℕ
padding n = zeros ((4 - n % 4) % 4)

-- snprintf into a buffer of 1024 bytes, and the NUL behind it.
abbrev pub entry_text : CString → List ℕ
entry_text s = take 1023 s ++ 0 ∷ []

unfoldable pub header_bytes : ElfLayout → List ProgramHeader → List ℕ
header_bytes elf [] = []
header_bytes elf (p ∷ ps) = elf.phdr p ++ header_bytes elf ps

unfoldable pub zero_data : List ExeSegment → List ℕ
zero_data [] = []
zero_data (s ∷ ss) = zeros s.size ++ zero_data ss

module _ (elf : ElfLayout) (path : CString) where
  -- The regions of the executable segments from index `i` on.
  unfoldable pub region_notes : ℕ → List ExeSegment → List ℕ
  region_notes i [] = []
  region_notes i (s ∷ ss) =
      elf.region_info s.start (s.start + s.size) i
      ++ (entry_text (path ++ (text ": segment " ++ int_onto [] (pos i)))
          ++ region_notes (i + 1) ss)

  -- The entries that the note wraps.
  unfoldable pub descriptor : ℕ → List ExeSegment → List ℕ
  unfolding region_notes
  descriptor inner_crash segments =
      elf.process_header
      ++ (entry_text (
            text "{\"pid\":42,\"termination_signal\":11,\"executable_path\":\""
            ++ (path
                ++ text
                    "\",\"arguments\":[\"crashy-fixture\"],\"environment\":[\"PATH=/usr/bin\"]}"))
          ++ (elf.thread_info inner_crash (stack_base + 0x100) (stack_base + 0x80)
              ++ (region_notes 0 segments
                  ++ (elf.region_info stack_base (stack_base + stack_size) (length segments)
                      ++ (text "stack"
                          ++ 0
                            ∷ (elf.metadata
                                ++ (text "{\"assertion\":\"false == true in inner_crash()\"}"
                                    ++ 0 ∷ elf.null_entry)))))))

  -- The note's name has eleven bytes with its NUL; descsz stands at offset 4.
  unfoldable pub notes : ℕ → List ExeSegment → List ℕ
  unfolding descriptor write_bytes
  notes inner_crash segments =
      let desc = descriptor inner_crash segments in
      write_bytes 4 4 (length desc)
        (elf.note_header 11 ++ (text "SerenityOS" ++ 0 ∷ (padding 11 ++ desc)))
      ++ padding (length desc)

  abbrev pub data_offset : List ExeSegment → ℕ
  data_offset segments = elf.ehdr_size + (length segments + 2) * elf.phdr_size

  unfoldable pub program_headers : ℕ → List ExeSegment → List ProgramHeader
  program_headers inner_crash segments =
      let behind = offset_behind (data_offset segments) segments in
      load_headers (data_offset segments) segments
      ++ stack_header behind
        ∷ note_phdr (behind + stack_size) (length (notes inner_crash segments))
        ∷ []

  -- What is written to the file.
  unfoldable pub core_file : ℕ → ℕ → List ExeSegment → List ℕ
  core_file inner_crash main_address segments =
      elf.ehdr (length segments + 2)
      ++ (header_bytes elf (program_headers inner_crash segments)
          ++ (zero_data segments ++ (stack_data main_address ++ notes inner_crash segments)))

  -- The file, or none for a message and status 1. `reference` is none where the binary cannot be
  -- mapped; `opens` is whether the output can be opened.
  unfoldable pub main : Option Reference → Bool → Option (List ℕ)
  main none opens = none
  main (some r) opens =
      if find_symbol r (text "_Z11inner_crashv") == 0 || find_symbol r (text "main") == 0
      then none
      else if length r.segments == 0
      then none
      else if opens
      then some (
          core_file (find_symbol r (text "_Z11inner_crashv")) (find_symbol r (text "main"))
            r.segments)
      else none
