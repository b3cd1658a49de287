-- ===== src/Launcher/Options/Parsing.antt =====
-- parse_args of src/Launcher/main.cpp on options that are written out.
use serena_de.CString.{CString, text, equal, split_at, atoi}
use serena_de.Prelude.Int.{ℤ}
use serena_de.Launcher.Options.{
  Float, Service, Options, add_service, max_service_count, Flag, flag_of, set_option, takes_value,
  kind, parse_loop, finish, is_set, parse_args, defaults,
}
use serena_de.Prelude.{
  ℕ, ◌==◌, ◌++◌, Bool, Bool-cases, if◌then◌else◌, leb, length, ap, sym, Option-cases, inl, inr,
  ◌&&◌, ◌≡◌, refl, ◌∙◌, true, false, List, [], ◌∷◌, Option, none, some,
}

-- How an option is spelled.
abbrev pub spelling : Flag → CString
spelling Flag.res = text "--res"
spelling Flag.screenshot = text "--screenshot"
spelling Flag.delay = text "--delay"
spelling Flag.width = text "--width"
spelling Flag.height = text "--height"
spelling Flag.scale = text "--scale"
spelling Flag.cursor_theme = text "--cursor-theme"
spelling Flag.log_dir = text "--log-dir"
spelling Flag.sys_dir = text "--sys-dir"
spelling Flag.service = text "--service"
spelling Flag.broker_service = text "--broker-service"
spelling Flag.input_root = text "--input-root"
spelling Flag.script = text "--script"
spelling Flag.home = text "--home"
spelling Flag.co_app = text "--co-app"
spelling Flag.co_app_delay = text "--co-app-delay"
spelling Flag.golden = text "--golden"
spelling Flag.tolerance = text "--tolerance"
spelling Flag.expect_window = text "--expect-window"
spelling Flag.x11 = text "--x11"
spelling Flag.unknown = text "--"
spelling Flag.positional = []

pub flag_of-spelling : (f : Flag) → flag_of (spelling f) ≡ f
unfolding flag_of equal
flag_of-spelling Flag.res = refl
flag_of-spelling _ = refl

-- An option on the command line: `--x11`, or one with its value.
pub data Setting : Type 0 where
  use_x11 : Setting
  set_to : (f : Flag) → CString → kind f ≡ takes_value → Setting

abbrev pub written : List Setting → List CString → List CString
written [] rest = rest
written (use_x11 ∷ ss) rest = spelling Flag.x11 ∷ written ss rest
written (set_to f v k ∷ ss) rest = spelling f ∷ v ∷ written ss rest

-- What an option holds: a text that may be missing, a number, a double, a table of services, a switch.
pub data Value (F : Float) : Type 0 where
  as_text : Option CString → Value F
  as_number : ℤ → Value F
  as_double : F.Double → Value F
  as_table : List Service → Value F
  as_switch : Bool → Value F

-- The field of Options that an option is about.
abbrev pub field : {F : Float} → Flag → Options F → Value F
field Flag.res o = as_text o.res_root
field Flag.screenshot o = as_text o.screenshot_path
field Flag.delay o = as_number o.delay_ms
field Flag.width o = as_number o.width
field Flag.height o = as_number o.height
field Flag.scale o = as_number o.scale
field Flag.cursor_theme o = as_text (some o.cursor_theme)
field Flag.log_dir o = as_text (some o.log_dir)
field Flag.sys_dir o = as_text o.sys_dir
field Flag.service o = as_table o.services
field Flag.broker_service o = as_table o.broker_services
field Flag.input_root o = as_text o.input_root
field Flag.script o = as_text o.script_path
field Flag.home o = as_text o.home
field Flag.co_app o = as_text o.co_app
field Flag.co_app_delay o = as_number o.co_app_delay_ms
field Flag.golden o = as_text o.golden_path
field Flag.tolerance o = as_number o.tolerance
field Flag.expect_window o = as_double o.expect_window_min
field Flag.x11 o = as_switch o.x11
field _ o = as_text none

-- A value on the command line, read as what its field holds; a service is put behind the others.
abbrev pub read_as : {F : Float} → CString → Value F → Value F
read_as v (as_text _) = as_text (some v)
read_as v (as_number _) = as_number (atoi v)
read_as {F} v (as_double _) = as_double (F.atof v)
read_as v (as_table services) = elim (split_at b'=' v) [
  | none ↦ as_table services
  | some (path, binary) ↦ as_table (services ++ record { socket_path = path; binary = binary } ∷ [])
]
read_as v (as_switch _) = as_switch true

abbrev pub number_of : Flag → ℕ
number_of Flag.res = 0
number_of Flag.screenshot = 1
number_of Flag.delay = 2
number_of Flag.width = 3
number_of Flag.height = 4
number_of Flag.scale = 5
number_of Flag.cursor_theme = 6
number_of Flag.log_dir = 7
number_of Flag.sys_dir = 8
number_of Flag.service = 9
number_of Flag.broker_service = 10
number_of Flag.input_root = 11
number_of Flag.script = 12
number_of Flag.home = 13
number_of Flag.co_app = 14
number_of Flag.co_app_delay = 15
number_of Flag.golden = 16
number_of Flag.tolerance = 17
number_of Flag.expect_window = 18
number_of Flag.x11 = 19
number_of Flag.unknown = 20
number_of Flag.positional = 21

-- The settings that are about a field, one after the other, on what it held; no other touches it.
abbrev pub final : {F : Float} → Flag → List Setting → Value F → Value F
final f [] old = old
final f (use_x11 ∷ ss) old =
    final f ss (if number_of f == number_of Flag.x11 then as_switch true else old)
final f (set_to g v k ∷ ss) old =
    final f ss (if number_of f == number_of g then read_as v old else old)

-- The result of one setting, field by field.
abbrev Sets : {F : Float} → Flag → Flag → CString → Options F → Option (Options F) → Type 0
Sets f g v o none = Unit
Sets f g v o (some o') =
    field f o' ≡ (if number_of f == number_of g then read_as v (field f o) else field f o)

module _ {F : Float} where
  service-added :
      (f : Flag) (v path binary : CString) (o : Options F)
      → split_at b'=' v ≡ some (path, binary)
      → field f (record o {
        services = o.services ++ record { socket_path = path; binary = binary } ∷ [];
      })
        ≡ (if number_of f == number_of Flag.service then read_as v (field f o) else field f o)
  service-added Flag.service v path binary o e = rw (e, read_as) refl
  service-added _ v path binary o e = refl

  service-Sets :
      (f : Flag) (v : CString) (o : Options F)
      → Sets f Flag.service v o (set_option Flag.service v o)
  unfolding set_option add_service
  service-Sets f v o = elim (Option-cases (split_at b'=' v)) [
    | inl e ↦ rw (Sets, e) tt
    | inr ((path, binary), e) ↦ elim (Bool-cases (leb max_service_count (length o.services))) [
      | inl full ↦ rw (Sets, e, full) tt
      | inr room ↦ rw (Sets, e, room) (service-added f v path binary o e)
    ]
  ]

  broker_service-added :
      (f : Flag) (v path binary : CString) (o : Options F)
      → split_at b'=' v ≡ some (path, binary)
      → field f (record o {
        broker_services = o.broker_services ++ record { socket_path = path; binary = binary } ∷ [];
      })
        ≡ (if number_of f == number_of Flag.broker_service
            then read_as v (field f o)
            else field f o)
  broker_service-added Flag.broker_service v path binary o e = rw (e, read_as) refl
  broker_service-added _ v path binary o e = refl

  broker_service-Sets :
      (f : Flag) (v : CString) (o : Options F)
      → Sets f Flag.broker_service v o (set_option Flag.broker_service v o)
  unfolding set_option add_service
  broker_service-Sets f v o = elim (Option-cases (split_at b'=' v)) [
    | inl e ↦ rw (Sets, e) tt
    | inr ((path, binary), e) ↦
        elim (Bool-cases (leb max_service_count (length o.broker_services))) [
          | inl full ↦ rw (Sets, e, full) tt
          | inr room ↦ rw (Sets, e, room) (broker_service-added f v path binary o e)
        ]
  ]

  set_option-Sets : (g f : Flag) (v : CString) (o : Options F) → Sets f g v o (set_option g v o)
  unfolding set_option
  set_option-Sets Flag.service f v o = service-Sets f v o
  set_option-Sets Flag.broker_service f v o = broker_service-Sets f v o
  set_option-Sets Flag.res Flag.res v o = refl
  set_option-Sets Flag.res _ v o = refl
  set_option-Sets Flag.screenshot Flag.res v o = refl
  set_option-Sets Flag.screenshot _ v o = refl
  set_option-Sets Flag.delay Flag.res v o = refl
  set_option-Sets Flag.delay _ v o = refl
  set_option-Sets Flag.width Flag.res v o = refl
  set_option-Sets Flag.width _ v o = refl
  set_option-Sets Flag.height Flag.res v o = refl
  set_option-Sets Flag.height _ v o = refl
  set_option-Sets Flag.scale Flag.res v o = refl
  set_option-Sets Flag.scale _ v o = refl
  set_option-Sets Flag.cursor_theme Flag.res v o = refl
  set_option-Sets Flag.cursor_theme _ v o = refl
  set_option-Sets Flag.log_dir Flag.res v o = refl
  set_option-Sets Flag.log_dir _ v o = refl
  set_option-Sets Flag.sys_dir Flag.res v o = refl
  set_option-Sets Flag.sys_dir _ v o = refl
  set_option-Sets Flag.input_root Flag.res v o = refl
  set_option-Sets Flag.input_root _ v o = refl
  set_option-Sets Flag.script Flag.res v o = refl
  set_option-Sets Flag.script _ v o = refl
  set_option-Sets Flag.home Flag.res v o = refl
  set_option-Sets Flag.home _ v o = refl
  set_option-Sets Flag.co_app Flag.res v o = refl
  set_option-Sets Flag.co_app _ v o = refl
  set_option-Sets Flag.co_app_delay Flag.res v o = refl
  set_option-Sets Flag.co_app_delay _ v o = refl
  set_option-Sets Flag.golden Flag.res v o = refl
  set_option-Sets Flag.golden _ v o = refl
  set_option-Sets Flag.tolerance Flag.res v o = refl
  set_option-Sets Flag.tolerance _ v o = refl
  set_option-Sets Flag.expect_window Flag.res v o = refl
  set_option-Sets Flag.expect_window _ v o = refl
  set_option-Sets Flag.x11 f v o = tt
  set_option-Sets Flag.unknown f v o = tt
  set_option-Sets Flag.positional f v o = tt

  -- The options after the settings, one after the other; `none` where a service is refused.
  abbrev pub apply : List Setting → Options F → Option (Options F)
  apply [] o = some o
  apply (use_x11 ∷ ss) o = apply ss (record o { x11 = true })
  apply (set_to f v k ∷ ss) o = elim (set_option f v o) [ none ↦ none | some o' ↦ apply ss o' ]

  x11-Sets :
      (f : Flag) (o : Options F)
      → field f (record o { x11 = true })
        ≡ (if number_of f == number_of Flag.x11 then as_switch true else field f o)
  x11-Sets Flag.res o = refl
  x11-Sets _ o = refl

  apply-final :
      (f : Flag) (ss : List Setting) (o o' : Options F)
      → apply ss o ≡ some o'
      → field f o' ≡ final f ss (field f o)
  apply-final f [] o o' e = ap (field f) (sym cc)
  apply-final f (use_x11 ∷ ss) o o' e =
      apply-final f ss (record o { x11 = true }) o' e ∙ ap (final f ss) (x11-Sets f o)
  apply-final f (set_to g v k ∷ ss) o o' e =
      after (set_option g v o) (set_option-Sets g f v o) (λ o₁ h. apply-final f ss o₁ o' h) e
    where
      after :
          (r : Option (Options F))
          → Sets f g v o r
          → ((o₁ : Options F) → apply ss o₁ ≡ some o' → field f o' ≡ final f ss (field f o₁))
          → elim r [ none ↦ none | some o₁ ↦ apply ss o₁ ] ≡ some o'
          → field f o' ≡ final f (set_to g v k ∷ ss) (field f o)
      after none h more e = cc
      after (some o₁) h more e = more o₁ e ∙ ap (final f ss) h

  parse_loop-stop :
      (ws : CString) (rest : List CString) (o : Options F)
      → flag_of ws ≡ Flag.positional
      → parse_loop (ws ∷ rest) o ≡ some (o, ws ∷ rest)
  unfolding parse_loop kind
  parse_loop-stop ws [] o e = rw (e, parse_loop)
  parse_loop-stop ws (v ∷ rest) o e = rw (e, parse_loop)

  parse_loop-x11 :
      (more : List CString) (o : Options F)
      → parse_loop (spelling Flag.x11 ∷ more) o ≡ parse_loop more (record o { x11 = true })
  unfolding parse_loop kind
  parse_loop-x11 [] o = rw (flag_of-spelling Flag.x11, parse_loop)
  parse_loop-x11 (v ∷ rest) o = rw (flag_of-spelling Flag.x11, parse_loop)

  parse_loop-set :
      (f : Flag) (v : CString) (more : List CString) (o o' : Options F)
      → kind f ≡ takes_value
      → set_option f v o ≡ some o'
      → parse_loop (spelling f ∷ v ∷ more) o ≡ parse_loop more o'
  unfolding parse_loop
  parse_loop-set f v more o o' k e =
      rw (flag_of-spelling f, k, parse_loop) (rw (flag_of-spelling f, e))

  parse_loop-refused :
      (f : Flag) (v : CString) (more : List CString) (o : Options F)
      → kind f ≡ takes_value
      → set_option f v o ≡ none
      → parse_loop (spelling f ∷ v ∷ more) o ≡ none
  unfolding parse_loop
  parse_loop-refused f v more o k e =
      rw (flag_of-spelling f, k, parse_loop) (rw (flag_of-spelling f, e))

  -- What the loop makes of written settings, with a window server behind them.
  abbrev pub reads : Option (Options F) → List CString → Option (Options F × List CString)
  reads none rest = none
  reads (some o) rest = some (o, rest)

  -- Settings that are written out, with a word behind them that is no option, are read as what they
  -- set, in order; and refused if one of them is.
  pub parse_loop-written :
      (ss : List Setting) (ws : CString) (rest : List CString) (o : Options F)
      → flag_of ws ≡ Flag.positional
      → parse_loop (written ss (ws ∷ rest)) o ≡ reads (apply ss o) (ws ∷ rest)
  parse_loop-written [] ws rest o p = parse_loop-stop ws rest o p
  parse_loop-written (use_x11 ∷ ss) ws rest o p =
      parse_loop-x11 (written ss (ws ∷ rest)) o
      ∙ parse_loop-written ss ws rest (record o { x11 = true }) p
  parse_loop-written (set_to f v k ∷ ss) ws rest o p = elim (Option-cases (set_option f v o)) [
    | inl e ↦ rw (e, apply, reads) (parse_loop-refused f v (written ss (ws ∷ rest)) o k e)
    | inr (o', e) ↦
        rw (e, apply, reads)
          (parse_loop-set f v (written ss (ws ∷ rest)) o o' k e
            ∙ parse_loop-written ss ws rest o' p)
  ]

-- A command line of written settings, a window server whose name is no option, an app and its
-- arguments is read as options with those three. Each field then holds what the settings of its own
-- option make of its default, in order: a text or a number the last value given, read as such, a table
-- of services all of them, split at the first equals sign; and no other option touches the field. It
-- asks that no setting is refused, the two required options are among them, and two input backends
-- are not.
pub parse_args-written :
    (F : Float) (ss : List Setting) (ws app : CString) (args : List CString) (o : Options F)
    → flag_of ws ≡ Flag.positional
    → apply ss (defaults F) ≡ some o
    → is_set o.res_root ≡ true
    → is_set o.screenshot_path ≡ true
    → (o.x11 && is_set o.input_root) ≡ false
    → (parse_args F (written ss (ws ∷ app ∷ args))
        ≡ some (record { options = o; window_server = ws; app = app; app_args = app ∷ args }))
      × ((f : Flag) → field f o ≡ final f ss (field f (defaults F)))
unfolding parse_args finish
parse_args-written F ss ws app args o p e r s x = (
  rw (parse_loop-written ss ws (app ∷ args) (defaults F) p, e, parse_args) (rw (r, s, x)),
  λ f. apply-final f ss (defaults F) o e,
)
