-- ===== src/Launcher/Options/Bounds.antt =====
-- The tables and the requirements of parse_args, src/Launcher/main.cpp.
use serena_de.CString.{CString, split_at}
use serena_de.CString.Equality.{split_at-Splits}
use serena_de.Launcher.Options.{
  Service, Float, Options, Flag, flag_of, add_service, set_option, takes_value, switch, bad, stop,
  kind, parse_loop, take_positional, finish, is_set, Parsed, parse_args, defaults,
}
use mathlib.Core.Bool.{false≢true}
use serena_de.Prelude.{
  ◌≤◌, ◌≡◌, ◌≢◌, refl, sym, ap, Bool, true, false, not, ◌&&◌, ◌||◌, List, [], ◌∷◌, ◌++◌, Option,
  none, some, All, All-append, arith, length, length-append, leb, inl, inr, Option-cases,
  Bool-cases, Every,
}

-- The table of services fits its array, and no socket path holds the separator.
pub record IsTable (table : List Service) : Type 0 where
  pub fits : length table ≤ 8
  pub paths : All (λ s. All (λ c. c ≢ b'=') s.socket_path) table

add_service-IsTable :
    (spec : CString) (table : List Service) → IsTable table → Every IsTable (add_service spec table)
unfolding add_service
add_service-IsTable spec table t = elim (Option-cases (split_at b'=' spec)) [
  | inl missing ↦ rw (missing, add_service, Every) tt
  | inr ((path, binary), found) ↦ elim (Bool-cases (leb 8 (length table))) [
    | inl full ↦ rw (found, full, add_service, Every) tt
    | inr room ↦
        let s : Service = record { socket_path = path; binary = binary } in
        rw (found, room, add_service, Every)
          (record {
            fits = ground (arith, length-append table (s ∷ []));
            paths =
                All-append (λ k. All (λ c. c ≢ b'=') k.socket_path) table (s ∷ []) t.paths
                  ((split_at-Splits b'=' spec (path, binary) found).1, tt);
          })
  ]
]

both_set : (a b : Bool) → not a || not b ≡ false → (a ≡ true) × (b ≡ true)
both_set true true e = (refl, refl)
both_set true false e = absurd (false≢true (sym e))
both_set false b e = absurd (false≢true (sym e))

module _ {F : Float} where
  -- Both tables of services are sound.
  pub record HasTables (o : Options F) : Type 0 where
    pub services : IsTable o.services
    pub broker_services : IsTable o.broker_services

  set_option-HasTables :
      (f : Flag) (v : CString) (o : Options F) → HasTables o → Every HasTables (set_option f v o)
  unfolding set_option
  set_option-HasTables Flag.service v o t = elim (Option-cases (add_service v o.services)) [
    | inl refused ↦ rw (refused, set_option, Every) tt
    | inr (table, e) ↦
        rw (e, set_option, Every)
          (record {
            services = rw (e, Every) at (add_service-IsTable v o.services t.services);
            broker_services = t.broker_services;
          })
  ]
  set_option-HasTables Flag.broker_service v o t =
      elim (Option-cases (add_service v o.broker_services)) [
        | inl refused ↦ rw (refused, set_option, Every) tt
        | inr (table, e) ↦
            rw (e, set_option, Every)
              (record {
                services = t.services;
                broker_services =
                    rw (e, Every) at (add_service-IsTable v o.broker_services t.broker_services);
              })
      ]
  set_option-HasTables Flag.x11 v o t = tt
  set_option-HasTables Flag.unknown v o t = tt
  set_option-HasTables Flag.positional v o t = tt
  set_option-HasTables _ v o t = record {
    services = t.services;
    broker_services = t.broker_services;
  }

  -- The options have sound tables, and what is left is the end of the arguments.
  abbrev LoopInv : List CString → Options F × List CString → Type 0
  LoopInv argv (o, rest) = HasTables o × ((read : List CString) × (argv ≡ read ++ rest))

  LoopInv-cons :
      (a : CString) (argv : List CString) (r : Option (Options F × List CString))
      → Every (LoopInv argv) r
      → Every (LoopInv (a ∷ argv)) r
  LoopInv-cons a argv none h = tt
  LoopInv-cons a argv (some (o, rest)) (t, (read, e)) = (t, (a ∷ read, ap (◌∷◌ a) e))

  HasTables-defaults : HasTables (defaults F)
  HasTables-defaults = record {
    services = record { fits = (omega arith); paths = tt };
    broker_services = record { fits = (omega arith); paths = tt };
  }

  parse_loop-LoopInv :
      (argv : List CString) (o : Options F) → HasTables o → Every (LoopInv argv) (parse_loop argv o)
  unfolding parse_loop
  parse_loop-LoopInv [] o t = (t, ([], refl))
  parse_loop-LoopInv (arg ∷ []) o t =
      elim (kind (flag_of arg))
        as (λ k. Every (LoopInv (arg ∷ [])) (elim k [
          | stop ↦ some (o, arg ∷ [])
          | switch ↦ some (record o { x11 = true }, [])
          | bad ↦ none
          | takes_value ↦ none
        ])) [
          | stop ↦ (t, ([], refl))
          | switch ↦ (
            record { services = t.services; broker_services = t.broker_services },
            (arg ∷ [], refl),
          )
          | bad ↦ tt
          | takes_value ↦ tt
        ]
  parse_loop-LoopInv (arg ∷ v ∷ rest) o t =
      elim (kind (flag_of arg))
        as (λ k. Every (LoopInv (arg ∷ v ∷ rest)) (elim k [
          | stop ↦ some (o, arg ∷ v ∷ rest)
          | switch ↦ parse_loop (v ∷ rest) (record o { x11 = true })
          | bad ↦ none
          | takes_value ↦ elim (set_option (flag_of arg) v o) [
            | none ↦ none
            | some o' ↦ parse_loop rest o'
          ]
        ])) [
          | stop ↦ (t, ([], refl))
          | switch ↦ LoopInv-cons arg (v ∷ rest) _ (
              parse_loop-LoopInv (v ∷ rest) (record o { x11 = true })
                (record { services = t.services; broker_services = t.broker_services }))
          | bad ↦ tt
          | takes_value ↦ elim (Option-cases (set_option (flag_of arg) v o)) [
            | inl refused ↦ rw (refused, Every) tt
            | inr (o', e) ↦
                rw (e, Every)
                  (LoopInv-cons arg (v ∷ rest) _ (
                    LoopInv-cons v rest _ (
                      parse_loop-LoopInv rest o'
                        (rw (e, Every) at (set_option-HasTables (flag_of arg) v o t)))))
          ]
        ]

  -- The options agree with each other, and the arguments end in the positional ones.
  pub record IsComplete (argv : List CString) (p : Parsed F) : Type 0 where
    pub tables : HasTables p.options
    pub res_root : is_set p.options.res_root ≡ true
    pub screenshot_path : is_set p.options.screenshot_path ≡ true
    pub one_backend : p.options.x11 && is_set p.options.input_root ≡ false
    pub positional : (read : List CString) × (argv ≡ read ++ p.window_server ∷ p.app_args)
    pub app_first : (args : List CString) × (p.app_args ≡ p.app ∷ args)

  take_positional-IsComplete :
      (argv : List CString) (o : Options F) (rest : List CString)
      → LoopInv argv (o, rest)
      → (is_set o.res_root ≡ true) × (is_set o.screenshot_path ≡ true)
      → o.x11 && is_set o.input_root ≡ false
      → Every (IsComplete argv) (take_positional o rest)
  unfolding take_positional
  take_positional-IsComplete argv o [] inv given one = tt
  take_positional-IsComplete argv o (ws ∷ []) inv given one = tt
  take_positional-IsComplete argv o (ws ∷ app ∷ args) (t, split) (res, shot) one = record {
    tables = t;
    res_root = res;
    screenshot_path = shot;
    one_backend = one;
    positional = split;
    app_first = (args, refl);
  }

  finish-IsComplete :
      (argv : List CString) (o : Options F) (rest : List CString)
      → LoopInv argv (o, rest)
      → Every (IsComplete argv) (finish o rest)
  unfolding finish
  finish-IsComplete argv o rest inv =
      elim (Bool-cases (not (is_set o.res_root) || not (is_set o.screenshot_path))) [
        | inl missing ↦ rw (missing, Every) tt
        | inr given ↦ elim (Bool-cases (o.x11 && is_set o.input_root)) [
          | inl both ↦ rw (given, both, Every) tt
          | inr one ↦
              rw (given, one) (take_positional-IsComplete argv o rest inv (both_set _ _ given) one)
        ]
      ]

parse_args-Every : (F : Float) (argv : List CString) → Every (IsComplete argv) (parse_args F argv)
unfolding parse_args
parse_args-Every F argv = elim (Option-cases (parse_loop argv (defaults F))) [
  | inl failed ↦ rw (failed, parse_args, Every) tt
  | inr ((o, rest), e) ↦
      rw (e, parse_args, Every)
        (finish-IsComplete argv o rest
          (rw (e, Every) at (parse_loop-LoopInv argv (defaults F) HasTables-defaults)))
]

-- Whatever the arguments are, when parse_args returns, each table holds at most its eight services,
-- with no separator in a socket path; the resource root and the screenshot are given; the options
-- do not ask for two input backends at once; and the arguments end in the window server, the app and
-- the app's own arguments, the app first in what it is started with.
pub parse_args-IsComplete :
    (F : Float) (argv : List CString) (p : Parsed F)
    → parse_args F argv ≡ some p
    → IsComplete argv p
parse_args-IsComplete F argv p e = rw (e, Every) at (parse_args-Every F argv)
