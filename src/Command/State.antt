-- ===== src/Command/State.antt =====
-- Which state file the command line leads to (main.go).
use tenderduty_nos.Prelude.{
  String, Bool, true, false, ◌||◌, ◌≡◌, ◌↔◌, ◌⊎◌, refl, subst, sym, ◌∙◌, arith, str_eq, Option,
  none, some, List, [], ◌∷◌, Bool-cases, Option-cases, inl, inr,
}
use tenderduty_nos.Command.Flags.{
  Options, default_options, default_state_file, legacy_state_file, Parsed, options, help, bad,
  Applied, set_here, set_next, asked_help, refused, Argument, last, malformed, flag, read_argument,
  parse_bool, text_flag, bool_flag, set_text, set_bool, apply_flag, parse_flags, with_legacy_state,
  with_environment, parse_options,
}

-- The flags leave the old file alone, and the default stays where no state file is given.
record IsPlain (o : Options) : Type 0 where
  pub no_legacy : o.using_legacy_state ≡ false
  pub default_kept : o.state_given ≡ false → o.state_file ≡ default_state_file

AllPlain : Applied → Type 0
AllPlain (set_here o) = IsPlain o
AllPlain (set_next o) = IsPlain o
AllPlain asked_help = Unit
AllPlain refused = Unit

IsPlainText : Option (Options → String → Options) → Type 0
IsPlainText none = Unit
IsPlainText (some set) = (o : Options) (v : String) → IsPlain o → IsPlain (set o v)

IsPlainBool : Option (Options → Bool → Options) → Type 0
IsPlainBool none = Unit
IsPlainBool (some set) = (o : Options) (v : Bool) → IsPlain o → IsPlain (set o v)

same_state :
    {o p : Options}
    → p.using_legacy_state ≡ o.using_legacy_state
    → p.state_given ≡ o.state_given
    → p.state_file ≡ o.state_file
    → IsPlain o
    → IsPlain p
same_state a b c plain = record {
  no_legacy = a ∙ plain.no_legacy;
  default_kept = λ h. c ∙ plain.default_kept (sym b ∙ h);
}

text_flag-IsPlainText : (name : String) → IsPlainText (text_flag name)
unfolding text_flag IsPlainText
text_flag-IsPlainText name = elim (Bool-cases (str_eq name "f")) [
  | inl e ↦ rw e (λ o v. same_state {o = o} refl refl refl)
  | inr e ↦ elim (Bool-cases (str_eq name "encrypted-config")) [
    | inl f ↦ rw (e, f) (λ o v. same_state {o = o} refl refl refl)
    | inr f ↦ elim (Bool-cases (str_eq name "password")) [
      | inl g ↦ rw (e, f, g) (λ o v. same_state {o = o} refl refl refl)
      | inr g ↦ elim (Bool-cases (str_eq name "state")) [
        | inl k ↦
            rw (e, f, g, k)
              (λ o v plain. record { no_legacy = plain.no_legacy; default_kept = λ h. cc })
        | inr k ↦ elim (Bool-cases (str_eq name "cc")) [
          | inl l ↦ rw (e, f, g, k, l) (λ o v. same_state {o = o} refl refl refl)
          | inr l ↦ rw (e, f, g, k, l) tt
        ]
      ]
    ]
  ]
]

bool_flag-IsPlainBool : (name : String) → IsPlainBool (bool_flag name)
unfolding bool_flag IsPlainBool
bool_flag-IsPlainBool name = elim (Bool-cases (str_eq name "example-config")) [
  | inl e ↦ rw e (λ o v. same_state {o = o} refl refl refl)
  | inr e ↦ elim (Bool-cases (str_eq name "encrypt")) [
    | inl f ↦ rw (e, f) (λ o v. same_state {o = o} refl refl refl)
    | inr f ↦ elim (Bool-cases (str_eq name "decrypt")) [
      | inl g ↦ rw (e, f, g) (λ o v. same_state {o = o} refl refl refl)
      | inr g ↦ elim (Bool-cases (str_eq name "version")) [
        | inl k ↦ rw (e, f, g, k) (λ o v. same_state {o = o} refl refl refl)
        | inr k ↦ rw (e, f, g, k) tt
      ]
    ]
  ]
]

set_text-AllPlain :
    (set : Options → String → Options) (value next : Option String) (o : Options)
    → IsPlainText (some set)
    → IsPlain o
    → AllPlain (set_text set value next o)
unfolding set_text AllPlain IsPlainText
set_text-AllPlain set (some v) next o keeps plain = keeps o v plain
set_text-AllPlain set none (some v) o keeps plain = keeps o v plain
set_text-AllPlain set none none o keeps plain = tt

set_bool-AllPlain :
    (set : Options → Bool → Options) (value : Option String) (o : Options)
    → IsPlainBool (some set)
    → IsPlain o
    → AllPlain (set_bool set value o)
unfolding set_bool AllPlain IsPlainBool
set_bool-AllPlain set none o keeps plain = keeps o true plain
set_bool-AllPlain set (some v) o keeps plain = elim (Option-cases (parse_bool v)) [
  | inl e ↦ rw (AllPlain, set_bool, e) tt
  | inr (b, e) ↦ rw (AllPlain, set_bool, e) (keeps o b plain)
]

apply_flag-AllPlain :
    (name : String) (value next : Option String) (o : Options)
    → IsPlain o
    → AllPlain (apply_flag name value next o)
unfolding apply_flag AllPlain
apply_flag-AllPlain name value next o plain = elim (Option-cases (text_flag name)) [
  | inr (set, e) ↦
      rw (AllPlain, apply_flag, e)
        (set_text-AllPlain set value next o (subst IsPlainText e (text_flag-IsPlainText name))
          plain)
  | inl e ↦ elim (Option-cases (bool_flag name)) [
    | inl f ↦ elim (Bool-cases (str_eq name "help" || str_eq name "h")) [
      | inl g ↦ rw (AllPlain, apply_flag, e, f, g) tt
      | inr g ↦ rw (AllPlain, apply_flag, e, f, g) tt
    ]
    | inr (set, f) ↦
        rw (AllPlain, apply_flag, e, f)
          (set_bool-AllPlain set value o (subst IsPlainBool f (bool_flag-IsPlainBool name)) plain)
  ]
]

PlainParsed : Parsed → Type 0
PlainParsed (options o) = IsPlain o
PlainParsed help = Unit
PlainParsed bad = Unit

Argument-cases :
    (a : Argument)
    → ((a ≡ last) ⊎ (a ≡ malformed))
      ⊎ ((name : String) × (value : Option String) × (a ≡ flag name value))
Argument-cases last = inl (inl refl)
Argument-cases malformed = inl (inr refl)
Argument-cases (flag name value) = inr (name, value, refl)

Applied-cases :
    (a : Applied)
    → ((o : Options) × (a ≡ set_here o))
      ⊎ (((o : Options) × (a ≡ set_next o)) ⊎ ((a ≡ asked_help) ⊎ (a ≡ refused)))
Applied-cases (set_here o) = inl (o, refl)
Applied-cases (set_next o) = inr (inl (o, refl))
Applied-cases asked_help = inr (inr (inl refl))
Applied-cases refused = inr (inr (inr refl))

parse_flags-PlainParsed :
    (args : List String) (o : Options) → IsPlain o → PlainParsed (parse_flags args o)
unfolding parse_flags PlainParsed AllPlain
parse_flags-PlainParsed [] o plain = plain
parse_flags-PlainParsed (arg ∷ []) o plain = elim (Argument-cases (read_argument arg)) [
  | inl (inl e) ↦ rw (PlainParsed, parse_flags, e) plain
  | inl (inr e) ↦ rw (PlainParsed, parse_flags, e) tt
  | inr (name, value, e) ↦
      let keeps = apply_flag-AllPlain name value none o plain in
      elim (Applied-cases (apply_flag name value none o)) [
        | inl (o', f) ↦ rw (PlainParsed, parse_flags, e, f) (subst AllPlain f keeps)
        | inr (inl (o', f)) ↦ rw (PlainParsed, parse_flags, e, f) (subst AllPlain f keeps)
        | inr (inr (inl f)) ↦ rw (PlainParsed, parse_flags, e, f) tt
        | inr (inr (inr f)) ↦ rw (PlainParsed, parse_flags, e, f) tt
      ]
]
parse_flags-PlainParsed (arg ∷ (next ∷ args)) o plain = elim (Argument-cases (read_argument arg)) [
  | inl (inl e) ↦ rw (PlainParsed, parse_flags, e) plain
  | inl (inr e) ↦ rw (PlainParsed, parse_flags, e) tt
  | inr (name, value, e) ↦
      let keeps = apply_flag-AllPlain name value (some next) o plain in
      elim (Applied-cases (apply_flag name value (some next) o)) [
        | inl (o', f) ↦
            rw (PlainParsed, parse_flags, e, f)
              (parse_flags-PlainParsed (next ∷ args) o' (subst AllPlain f keeps))
        | inr (inl (o', f)) ↦
            rw (PlainParsed, parse_flags, e, f)
              (parse_flags-PlainParsed args o' (subst AllPlain f keeps))
        | inr (inr (inl f)) ↦ rw (PlainParsed, parse_flags, e, f) tt
        | inr (inr (inr f)) ↦ rw (PlainParsed, parse_flags, e, f) tt
      ]
]

default_options-IsPlain : IsPlain default_options
default_options-IsPlain = record { no_legacy = refl; default_kept = λ h. refl }

with_environment-keeps :
    (getenv : String → String) (o : Options)
    → ((with_environment getenv o).state_file ≡ o.state_file)
      × ((with_environment getenv o).using_legacy_state ≡ o.using_legacy_state)
      × ((with_environment getenv o).state_given ≡ o.state_given)
unfolding with_environment
with_environment-keeps getenv o = ground arith

abbrev Chosen : (String → Bool) → Options → Type 0
Chosen exists o =
    ((o.using_legacy_state ≡ true) ↔ (
      (o.state_given ≡ false)
      × (exists default_state_file ≡ false)
      × (exists legacy_state_file ≡ true)))
    × ((o.using_legacy_state ≡ true) → o.state_file ≡ legacy_state_file)
    × ((o.state_given ≡ false) → (o.using_legacy_state ≡ false) → o.state_file ≡ default_state_file)

with_legacy_state-Chosen :
    (exists : String → Bool) (o : Options) → IsPlain o → Chosen exists (with_legacy_state exists o)
unfolding with_legacy_state
with_legacy_state-Chosen exists o plain = elim (Bool-cases o.state_given) [
  | inl e ↦ ground (arith, e, plain.no_legacy)
  | inr e ↦ ground (arith, e, plain.no_legacy, plain.default_kept e)
]

Chosen-same :
    (exists : String → Bool) (o p : Options)
    → p.state_file ≡ o.state_file
    → p.using_legacy_state ≡ o.using_legacy_state
    → p.state_given ≡ o.state_given
    → Chosen exists o
    → Chosen exists p
Chosen-same exists o p a b c chosen = rw (a, b, c) chosen

Parsed-cases : (r : Parsed) → ((o : Options) × (r ≡ options o)) ⊎ ((r ≡ help) ⊎ (r ≡ bad))
Parsed-cases (options o) = inl (o, refl)
Parsed-cases help = inr (inl refl)
Parsed-cases bad = inr (inr refl)

-- Which state file is used. It is the old one exactly where the command line gives no state file, the new
-- one does not exist and the old one does; otherwise, where none is given, it is the new one.
pub parse_options-state_file :
    (args : List String) (getenv : String → String) (exists : String → Bool) (o : Options)
    → parse_options args getenv exists ≡ options o
    → ((o.using_legacy_state ≡ true) ↔ (
        (o.state_given ≡ false)
        × (exists default_state_file ≡ false)
        × (exists legacy_state_file ≡ true)))
      × ((o.using_legacy_state ≡ true) → o.state_file ≡ legacy_state_file)
      × ((o.state_given ≡ false)
          → (o.using_legacy_state ≡ false)
          → o.state_file ≡ default_state_file)
unfolding parse_options PlainParsed
parse_options-state_file args getenv exists o h =
    let keeps = parse_flags-PlainParsed args default_options default_options-IsPlain in
    elim (Parsed-cases (parse_flags args default_options)) [
      | inr (inl e) ↦ absurd (ground (arith, h, e))
      | inr (inr e) ↦ absurd (ground (arith, h, e))
      | inl (p, e) ↦
          let plain : IsPlain p = subst PlainParsed e keeps in
          let q = with_legacy_state exists p in
          let same : with_environment getenv q ≡ o = ground (arith, h, e) in
          let k = with_environment-keeps getenv q in
          subst (Chosen exists) same (
            Chosen-same exists q (with_environment getenv q) k.0 k.1 k.2
              (with_legacy_state-Chosen exists p plain))
    ]
