-- ===== src/Launcher/OpenFiles/Handing.antt =====
-- What the launcher's children get on their descriptors, and what the launcher keeps, in main and
-- broker_wait of src/Launcher/main.cpp.
use serena_de.CString.{CString, text, equal}
use serena_de.Launcher.Groups.{group_services}
use serena_de.Launcher.Groups.Partition.{indices_of, group_services-Partition}
use serena_de.Launcher.OpenFiles.{
  Opened, fd_of, in_order, open_each, Forked, spawn_with_takeover, spawn_window_server, spawn_group,
  close_client, serve_client,
}
use serena_de.Launcher.OpenFiles.Lowest.{
  IsFull, IsOpen-update, IsOpen-here, IsOpen-open_each, AreLowest, AreLowest-RisingFds, RisingFds,
  RisingFds-Rising, last-IsLowest, last-RisingFds, open_each-AreOpen,
}
use serena_de.Launcher.Spawn.{Listening}
use serena_de.Launcher.Spawn.Handover.{
  listener, binary_of, matching, listeners_of-matching, matching-Rising, matching-AreOpen,
}
use serena_de.Launcher.Takeover.{Table, update, close, group_sockets}
use serena_de.Launcher.Takeover.Descriptors.{Rising, Rising-mono, AreOpen}
use serena_de.Launcher.Takeover.Log.{Handed, start_child-Handed}
use serena_de.Launcher.Takeover.Value.{joined}
use serena_de.Prelude.{
  ℕ, ◌+◌, ◌≤◌, ◌≡◌, refl, sym, ap, ◌∙◌, true, List, [], ◌∷◌, ◌++◌, Option, none, some, map, All,
  All-map, length, length-append, length-map, ltb, arith, if◌then◌else◌, ◌==◌, Bool-cases, inl, inr,
  ==_refl,
}

-- A fork whose child has the listeners `ls` of `t` and the log, and whose parent is left with `back`.
pub record HandsOver (t back : Table) (log file : ℕ) (ls : List (ℕ × CString)) (f : Option Forked)
    : Type 0 where
  pub at_execv : Table
  pub parent : Table
  pub forked :
      f
      ≡ some (record {
        child =
            if ltb (length (joined (group_sockets 3 ls))) 4096
            then some (at_execv, joined (group_sockets 3 ls))
            else none;
        parent = parent;
      })
  pub handed : Handed t log file ls at_execv
  pub kept : (j : ℕ) → parent j ≡ back j

-- A log that was opened is closed again.
pub close-update :
    (t : Table) (fd file : ℕ) → t fd ≡ none → (j : ℕ) → close fd (update t fd file) j ≡ t j
close-update t fd file free j = elim (Bool-cases (j == fd)) [
  | inl same ↦ rw same (sym (ap t (is_equal same) ∙ free))
  | inr other ↦ rw other refl
]
  where
    is_equal : (j == fd) ≡ true → j ≡ fd
    is_equal h = ground arith

spawn_with_takeover-HandsOver :
    (ls : List (ℕ × CString)) (t : Table) (log file : ℕ)
    → Rising 3 ls
    → AreOpen t ls
    → t log ≡ none
    → 3 + length ls ≤ log
    → HandsOver t t log file ls (spawn_with_takeover true (some log) file (group_sockets 3 ls) t)
unfolding spawn_with_takeover
spawn_with_takeover-HandsOver ls t log file rising are_open free behind =
    let (t', run, handed) = start_child-Handed ls t log file rising are_open free behind in
    record {
      at_execv = t';
      parent = close log (update t log file);
      forked = ap (λ c. some (record { child = c; parent = close log (update t log file) })) run;
      handed = handed;
      kept = close-update t log file free;
    }

length-matching : (b : CString) (ss : List Listening) → length (matching b ss) ≤ length ss
length-matching b [] = omega arith
length-matching b (s ∷ ss) =
    let rest = length-matching b ss in
    elim (Bool-cases (equal s.binary b)) [
      | inl same ↦ rw same (omega (arith, rest))
      | inr other ↦ rw other (omega (arith, rest))
    ]

pub RisingFds-front :
    (fds rest : List ℕ) (low : ℕ) → RisingFds low (fds ++ rest) → RisingFds low fds
RisingFds-front [] rest low h = tt
RisingFds-front (fd ∷ fds) rest low (h, hs) = (h, RisingFds-front fds rest (fd + 1) hs)

-- The services' listeners among all that main opens.
services-Rising :
    (o : Opened) (log : ℕ)
    → RisingFds 3 (in_order o ++ log ∷ [])
    → Rising 3 (map listener o.services) × (5 + length o.services ≤ log)
services-Rising o log h =
    let front = RisingFds-front (in_order o) (log ∷ []) 3 h in
    let others = map fd_of o.brokers ++ o.input_fds in
    (
      Rising-mono (o.wm_fd + 1) 3 (map listener o.services) (let (w, (m, _)) = front in omega arith)
          (RisingFds-Rising o.services others (o.wm_fd + 1) front.1.1),
      omega (
        arith,
        last-RisingFds (in_order o) log 3 h,
        length-append (map fd_of o.services) others,
        length-map fd_of o.services,
      ),
    )

abbrev pub window_server_listeners : Opened → List (ℕ × CString)
window_server_listeners o =
    (o.window_fd, text "/tmp/portal/window") ∷ (o.wm_fd, text "/tmp/portal/wm") ∷ []

open_each-window_server :
    (o : Opened) (t : Table) (first : ℕ)
    → AreOpen (open_each first (in_order o) t) (window_server_listeners o)
unfolding open_each
open_each-window_server o t first =
    let u = update (update t o.window_fd first) o.wm_fd (first + 1) in
    let others = map fd_of o.services ++ (map fd_of o.brokers ++ o.input_fds) in
    (
      IsOpen-open_each others (first + 1 + 1) u o.window_fd (
          IsOpen-update (update t o.window_fd first) o.wm_fd (first + 1) o.window_fd
            (IsOpen-here t o.window_fd first)),
      (
        IsOpen-open_each others (first + 1 + 1) u o.wm_fd
            (IsOpen-here (update t o.window_fd first) o.wm_fd (first + 1)),
        tt,
      ),
    )

-- Each child that main starts with sockets, from any table in which stdin, stdout and stderr are open,
-- if the system always gives the lowest free descriptor. The window server's child, and the child of
-- every group that main forms, has at its execv: from descriptor 3 on its own listeners, in order, for
-- a group those of exactly the services that have its binary; its log on stderr and nowhere else that
-- the log was; the launcher's stdin and stdout; and these listeners in SOCKET_TAKEOVER, if that value
-- is shorter than 4096 bytes, or else the child leaves. The launcher has afterwards what it had before.
pub main-HandsOver :
    (o : Opened) (t₀ : Table) (first log file : ℕ)
    → IsFull t₀ 3
    → AreLowest first (in_order o ++ log ∷ []) t₀
    → let t = open_each first (in_order o) t₀ in
      HandsOver t t log file
        (window_server_listeners o)
        (spawn_window_server true (some log) file o t)
      × All
          (λ g.
            HandsOver t t log file
              (matching g.binary o.services)
              (spawn_group true (some log) file o g t))
          (group_services (map binary_of o.services))
unfolding spawn_window_server spawn_group open_each group_sockets
main-HandsOver o t₀ first log file full lowest =
    let t = open_each first (in_order o) t₀ in
    let rising = AreLowest-RisingFds (in_order o ++ log ∷ []) first 3 t₀ full lowest in
    let (services_rising, behind) = services-Rising o log rising in
    let free = (last-IsLowest (in_order o) log first t₀ lowest).0 in
    let are_open : AreOpen t (map listener o.services) =
      open_each-AreOpen o.services (map fd_of o.brokers ++ o.input_fds) (first + 1 + 1)
        (update (update t₀ o.window_fd first) o.wm_fd (first + 1)) in
    (
      spawn_with_takeover-HandsOver (window_server_listeners o) t log file
          (rising.0, (rising.1.0, tt)) (open_each-window_server o t₀ first) free
          (omega (arith, behind)),
      All-map (λ g. g.members ≡ indices_of g.binary 0 (map binary_of o.services))
          (λ g.
            HandsOver t t log file (matching g.binary o.services)
              (spawn_group true (some log) file o g t))
          (λ g e.
            rw (e, listeners_of-matching g.binary [] o.services)
              (spawn_with_takeover-HandsOver (matching g.binary o.services) t log file
                (matching-Rising g.binary 3 o.services services_rising)
                (matching-AreOpen g.binary t o.services are_open) free
                (omega (arith, behind, length-matching g.binary o.services))))
          (group_services (map binary_of o.services))
          (group_services-Partition (map binary_of o.services)).1,
    )

-- A broker's child, in whatever table with stdin, stdout and stderr open the connection is accepted,
-- if the system gives the lowest free descriptor for the connection and for the log: it has the
-- connection on descriptor 3, its log on stderr and nowhere else that the log was, and the broker's
-- path in SOCKET_TAKEOVER, unless that is too long; the launcher has neither of them afterwards, but
-- what it had before.
pub serve_client-HandsOver :
    (t : Table) (client log file : ℕ) (path : CString)
    → IsFull t 3
    → AreLowest file (client ∷ log ∷ []) t
    → HandsOver
        (update t client file)
        t
        log
        (file + 1)
        ((client, path) ∷ [])
        (serve_client true (some log) file client path t)
unfolding serve_client group_sockets
serve_client-HandsOver t client log file path full (lowest, (log_lowest, _)) =
    let u = update t client file in
    let rising = AreLowest-RisingFds (client ∷ log ∷ []) file 3 t full (lowest, (log_lowest, tt)) in
    let h =
      spawn_with_takeover-HandsOver ((client, path) ∷ []) u log (file + 1) (rising.0, tt)
        ((file, rw (==_refl client) refl), tt) log_lowest.0
        (let (a, (b, _)) = rising in omega arith) in
    record {
      at_execv = h.at_execv;
      parent = close client h.parent;
      forked = ap (close_client client) h.forked;
      handed = h.handed;
      kept = λ j.
          ap (λ f. if j == client then none else f) (h.kept j)
          ∙ close-update t client file lowest.0 j;
    }
