-- ===== src/Launcher/Sysfs/Files.antt =====
-- The files of write_sysfs_data as JSON values.
use serena_de.CString.{CString, text, int_onto, digits_onto}
use serena_de.Launcher.Json.Value.{
  Json, Items, Fields, number, string, boolean, array, object, no_items, item, no_fields, field,
  render_onto, items_onto, fields_onto, comma, Piece, literal, emit, emit-append, emit-comma_piece,
}
use serena_de.Launcher.Json.{json_escape, escape_all}
use serena_de.Launcher.Sysfs.{
  Adapter, Host, written, path_in, phys_count, avail_count, memstat, cpu_count, write_cpus, cpuinfo,
  home_of, df, write_adapter, write_adapters, adapters, save, write_sysfs_data, and_file,
}
use serena_de.Prelude.Int.{ℤ, pos}
use serena_de.Prelude.{
  ℕ, zero, suc, ◌+◌, ◌-◌, ◌<◌, ◌≤◌, ◌≡◌, refl, ap, ◌∙◌, Bool, true, false, List, [], ◌∷◌, ◌++◌,
  none, some, if◌then◌else◌, ◌==◌, ne→==_false, Bool-cases, Option-cases, inl, inr, arith,
}

abbrev pub members : List (CString × ℤ) → Fields → Fields
members [] fs = fs
members ((key, z) ∷ keys) fs = field key (number z) (members keys fs)

-- The page counts.
abbrev pub memstat_value : Host → Json
memstat_value h = object (
    members
      ((text "kmalloc_allocated", pos 0)
        ∷ (text "kmalloc_available", pos 0)
        ∷ (text "physical_allocated", pos (phys_count h - avail_count h))
        ∷ (text "physical_available", pos (avail_count h))
        ∷ (text "physical_committed", pos 0)
        ∷ (text "physical_uncommitted", pos 0)
        ∷ (text "kmalloc_call_count", pos 0)
        ∷ (text "kfree_call_count", pos 0)
        ∷ [])
      no_fields)

-- The processors from `i` on.
abbrev pub cpu_items : ℕ → ℕ → Items
cpu_items zero i = no_items
cpu_items (suc left) i =
    item (object (field (text "processor") (number (pos i)) no_fields)) (cpu_items left (i + 1))

abbrev pub df_items : Host → Items
df_items h = elim (h.statvfs (home_of h)) [
  | none ↦ no_items
  | some sf ↦
      item
        (object (
          field (text "mount_point") (string (home_of h)) (
            field (text "source") (string (text "serenade-shim")) (
              field (text "readonly") (boolean false) (
                members
                  ((text "mount_flags", pos 0)
                    ∷ (text "block_size", pos sf.f_bsize)
                    ∷ (text "total_block_count", pos sf.f_blocks)
                    ∷ (text "free_block_count", pos sf.f_bfree)
                    ∷ (text "total_inode_count", pos sf.f_files)
                    ∷ (text "free_inode_count", pos sf.f_ffree)
                    ∷ [])
                  no_fields)))))
        no_items
]

abbrev pub adapter_value : Adapter → Json
adapter_value a = object (
    field (text "name") (string a.name) (
      field (text "ipv4_address") (string a.address) (
        field (text "link_speed") (number (pos 0)) (
          field (text "link_full_duplex") (boolean false) (
            members
              ((text "packets_in", pos 0)
                ∷ (text "packets_out", pos 0)
                ∷ (text "bytes_in", pos 0)
                ∷ (text "bytes_out", pos 0)
                ∷ (text "packets_dropped", pos 0)
                ∷ [])
              no_fields)))))

-- The interfaces with an IPv4 address.
abbrev pub adapter_items : List Adapter → Items
adapter_items [] = no_items
adapter_items (a ∷ more) =
    if a.has_inet then item (adapter_value a) (adapter_items more) else adapter_items more

abbrev pub adapters_of : Host → List Adapter
adapters_of h = elim h.getifaddrs [ none ↦ [] | some list ↦ list ]

emit-memstat : (h : Host) → emit [] (memstat h) ≡ render_onto (10 ∷ []) (memstat_value h)
unfolding emit memstat render_onto items_onto fields_onto escape_all json_escape int_onto
    digits_onto
emit-memstat h = refl

emit-write_cpus :
    (tail : CString) (left i : ℕ)
    → emit tail (write_cpus left i) ≡ items_onto tail (i == 0) (cpu_items left i)
unfolding emit write_cpus render_onto items_onto fields_onto escape_all json_escape
emit-write_cpus tail zero i = refl
emit-write_cpus tail (suc left) zero =
    ap (λ r. text "{\"processor\":" ++ int_onto (text "}" ++ r) (pos 0))
      (emit-write_cpus tail left 1)
emit-write_cpus tail (suc left) (suc i) = rw (ne→==_false (suc i) 0 (omega arith)) (
    ap (λ r. text ",{\"processor\":" ++ int_onto (text "}" ++ r) (pos (suc i)))
      (emit-write_cpus tail left (suc i + 1)
        ∙ ap (λ b. items_onto tail b (cpu_items left (suc i + 1)))
            (ne→==_false (suc i + 1) 0 (omega arith))))

emit-cpuinfo :
    (h : Host)
    → emit [] (cpuinfo h) ≡ render_onto (10 ∷ []) (array (cpu_items (cpu_count h.processors) 0))
unfolding emit cpuinfo render_onto
emit-cpuinfo h =
    ap (λ r. b'[' ∷ r)
      (emit-append [] (write_cpus (cpu_count h.processors) 0) (literal (text "]\n") ∷ [])
        ∙ emit-write_cpus (text "]\n") (cpu_count h.processors) 0)

emit-df : (h : Host) → emit [] (df h) ≡ render_onto (10 ∷ []) (array (df_items h))
unfolding emit df render_onto items_onto fields_onto escape_all json_escape int_onto digits_onto
emit-df h = elim (Option-cases (h.statvfs (home_of h))) [
  | inl e ↦ rw (df, df_items, e) refl
  | inr (sf, e) ↦ rw (df, df_items, e) refl
]

emit-write_adapter :
    (tail : CString) (a : Adapter)
    → emit tail (write_adapter a) ≡ render_onto tail (adapter_value a)
unfolding emit write_adapter render_onto items_onto fields_onto escape_all json_escape int_onto
    digits_onto
emit-write_adapter tail a = refl

emit-write_adapters :
    (tail : CString) (first : Bool) (list : List Adapter)
    → emit tail (write_adapters first list) ≡ items_onto tail first (adapter_items list)
unfolding emit write_adapters items_onto
emit-write_adapters tail first [] = refl
emit-write_adapters tail first (a ∷ more) = elim (Bool-cases a.has_inet) [
  | inl keep ↦ rw keep (
      emit-comma_piece tail first (write_adapter a ++ write_adapters false more)
      ∙ ap (comma first) (
          emit-append tail (write_adapter a) (write_adapters false more)
          ∙ emit-write_adapter (emit tail (write_adapters false more)) a
          ∙ ap (λ r. render_onto r (adapter_value a)) (emit-write_adapters tail false more)))
  | inr skip ↦ rw skip (emit-write_adapters tail first more)
]

emit-adapters :
    (h : Host)
    → emit [] (adapters h) ≡ render_onto (10 ∷ []) (array (adapter_items (adapters_of h)))
unfolding emit adapters render_onto items_onto
emit-adapters h = elim (Option-cases h.getifaddrs) [
  | inl e ↦ rw (adapters, adapters_of, e) refl
  | inr (list, e) ↦
      rw (adapters, adapters_of, e)
        (ap (λ r. b'[' ∷ r)
          (emit-append [] (write_adapters true list) (literal (text "]\n") ∷ [])
            ∙ emit-write_adapters (text "]\n") true list))
]

emit-sockets : emit [] (literal (text "[]\n") ∷ []) ≡ render_onto (10 ∷ []) (array no_items)
unfolding emit render_onto items_onto
emit-sockets = refl

-- Where every directory is there and every file opens, each of the seven files gets the rendering of
-- its JSON value and a line feed, in this order: the process list that it is given, the page counts,
-- a member for each processor, the file system of the home directory or nothing, the interfaces with
-- an IPv4 address, and two empty socket tables.
pub write_sysfs_data-Refines :
    (h : Host) (dir : CString) (processes : List Piece)
    → ((path : CString) → h.directory path ≡ true)
    → ((path : CString) → h.opens path ≡ true)
    → write_sysfs_data h dir processes
      ≡ written (
          (path_in dir (text "/processes"), emit [] processes)
          ∷ (path_in dir (text "/memstat"), render_onto (10 ∷ []) (memstat_value h))
          ∷ (
            path_in dir (text "/cpuinfo"),
            render_onto (10 ∷ []) (array (cpu_items (cpu_count h.processors) 0)),
          )
          ∷ (path_in dir (text "/df"), render_onto (10 ∷ []) (array (df_items h)))
          ∷ (
            path_in dir (text "/net/adapters"),
            render_onto (10 ∷ []) (array (adapter_items (adapters_of h))),
          )
          ∷ (path_in dir (text "/net/tcp"), render_onto (10 ∷ []) (array no_items))
          ∷ (path_in dir (text "/net/udp"), render_onto (10 ∷ []) (array no_items))
          ∷ [])
unfolding write_sysfs_data save and_file
write_sysfs_data-Refines h dir processes made opened =
    rw
      (
        write_sysfs_data,
        save,
        made dir,
        made (path_in dir (text "/net")),
        opened (path_in dir (text "/processes")),
        opened (path_in dir (text "/memstat")),
        opened (path_in dir (text "/cpuinfo")),
        opened (path_in dir (text "/df")),
        opened (path_in dir (text "/net/adapters")),
        opened (path_in dir (text "/net/tcp")),
        opened (path_in dir (text "/net/udp")),
        emit-memstat h,
        emit-cpuinfo h,
        emit-df h,
        emit-adapters h,
        emit-sockets,
      )
      refl

-- The counts of memstat are never divided by zero: what is allocated and what is available add up to
-- the installed pages, one at least, whatever sysconf answers.
pub memstat-total :
    (h : Host)
    → (0 < phys_count h)
      × (avail_count h ≤ phys_count h)
      × ((phys_count h - avail_count h) + avail_count h ≡ phys_count h)
unfolding phys_count avail_count
memstat-total h = ground arith
