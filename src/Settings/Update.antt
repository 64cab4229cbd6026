-- ===== src/Settings/Update.antt =====
-- What an accepted `mcp/settings/set` does to each field.
use dbx_plugin_kafka.Base.{
  ◌≤◌, ◌≡◌, ◌≢◌, refl, sym, ap, ◌∙◌, ◌⊎◌, subst, String, Option, none, some, List, [], ◌∷◌, All,
  arith, inl, inr, string_eq,
}
use dbx_plugin_kafka.Base.Int.{ℤ, pos_part}
use dbx_plugin_kafka.Base.Dict.{Dict, lookup}
use dbx_plugin_kafka.Base.Result.{Result, ok, >>=-eq-ok}
use dbx_plugin_kafka.Settings.{
  Settings, Field, SettingsField, Float64, Raw, number, other, SettingsError, field_name,
  settings_fields, sanitized, int_of, update_field, update_fields, apply_settings_update,
}
use dbx_plugin_kafka.Settings.Range.{
  get_field, least, Within, IsSanitized, sanitized_fixed, Agrees, settings_fields-Agrees,
  Field-discrete, get_field-set_field, get_field-set_field_ne,
}
use dbx_plugin_kafka.Settings.Cut.{IsCut, int_of-IsCut}

-- The value that a request wants a field to have, or the old one.
abbrev pub wanted : Option Raw → ℤ → ℤ
wanted (some (number x)) old = int_of x
wanted (some other) old = old
wanted none old = old

abbrev pub requested : Field → Dict String Raw → ℤ → ℤ
requested g updates old = wanted (lookup (field_name g) updates) old

-- Whether the table has the field.
abbrev pub Listed : Field → List SettingsField → Type 0
Listed g [] = ⊥
Listed g (f ∷ fs) = (f.field ≡ g) ⊎ Listed g fs

update_field_self :
    (f : SettingsField) (raw : Option Raw) (s t : Settings)
    → update_field f raw s ≡ ok t
    → get_field f.field t ≡ wanted raw (get_field f.field s)
unfolding update_field
update_field_self f none s t e = ground arith
update_field_self f (some other) s t e = cc
update_field_self f (some (number v)) s t e =
    ground (arith, get_field-set_field f.field (int_of v) s)

update_field_ne :
    (f : SettingsField) (g : Field) (raw : Option Raw) (s t : Settings)
    → f.field ≢ g
    → update_field f raw s ≡ ok t
    → get_field g t ≡ get_field g s
unfolding update_field
update_field_ne f g none s t differ e = ground arith
update_field_ne f g (some other) s t differ e = cc
update_field_ne f g (some (number v)) s t differ e =
    ground (arith, get_field-set_field_ne f.field g (int_of v) s differ)

update_field-Within :
    (f : SettingsField) (raw : Option Raw) (s t : Settings)
    → Agrees f
    → Within f.field (get_field f.field s)
    → update_field f raw s ≡ ok t
    → Within f.field (get_field f.field t)
unfolding update_field
update_field-Within f none s t agrees h e = ground arith
update_field-Within f (some other) s t agrees h e = cc
update_field-Within f (some (number v)) s t agrees h e =
    ground (arith, get_field-set_field f.field (int_of v) s)

update_field-IsSanitized :
    (f : SettingsField) (raw : Option Raw) (s t : Settings)
    → Agrees f
    → IsSanitized s
    → update_field f raw s ≡ ok t
    → IsSanitized t
update_field-IsSanitized f raw s t agrees h e g = elim (Field-discrete f.field g) [
  | no differ ↦ subst (Within g) (sym (update_field_ne f g raw s t differ e)) (h g)
  | yes same ↦
      subst (λ k. Within k (get_field k t)) same
        (update_field-Within f raw s t agrees (h f.field) e)
]

wanted_twice : (raw : Option Raw) (old : ℤ) → wanted raw (wanted raw old) ≡ wanted raw old
wanted_twice none old = refl
wanted_twice (some other) old = refl
wanted_twice (some (number v)) old = refl

dec_Listed : (g : Field) (fs : List SettingsField) → Dec (Listed g fs)
dec_Listed g [] = no (λ l. l)
dec_Listed g (f ∷ fs) = elim (Field-discrete f.field g) [
  | yes same ↦ yes (inl same)
  | no differ ↦ elim (dec_Listed g fs) [
    | yes more ↦ yes (inr more)
    | no last ↦ no (λ l. elim l [ inl same ↦ differ same | inr more ↦ last more ])
  ]
]

ok-injective : {s t : Settings} → ◌≡◌ {A = Result SettingsError Settings} (ok s) (ok t) → s ≡ t
ok-injective e = ground arith

-- The loop, over any part of the table.
update_fields_ok :
    (fs : List SettingsField) (updates : Dict String Raw) (s t : Settings)
    → All Agrees fs
    → IsSanitized s
    → update_fields fs updates s ≡ ok t
    → IsSanitized t
      × ((g : Field) → Listed g fs → get_field g t ≡ requested g updates (get_field g s))
      × ((g : Field) → ¬ Listed g fs → get_field g t ≡ get_field g s)
unfolding update_fields
update_fields_ok [] updates s t agree h e =
    let same : t ≡ s = ground arith in
    (subst IsSanitized (sym same) h, λ g l. elim l [ ], λ g n. ap (get_field g) same)
update_fields_ok (f ∷ fs) updates s t agree h e =
    let (u, first, rest) =
      >>=-eq-ok (update_field f (lookup (field_name f.field) updates) s)
        (λ u. update_fields fs updates u) e in
    let safe = update_field-IsSanitized f _ s u agree.0 h first in
    let (safe', listed, unlisted) = update_fields_ok fs updates u t agree.1 safe rest in
    (
      safe',
      λ g l. elim (Field-discrete f.field g) [
        | yes same ↦ elim (dec_Listed g fs) [
          | yes more ↦
              listed g more
              ∙ ap (requested g updates) (self g same u first)
              ∙ wanted_twice (lookup (field_name g) updates) (get_field g s)
          | no last ↦ unlisted g last ∙ self g same u first
        ]
        | no differ ↦ elim l [
          | inl same ↦ absurd (differ same)
          | inr more ↦
              listed g more ∙ ap (requested g updates) (update_field_ne f g _ s u differ first)
        ]
      ],
      λ g n. unlisted g (λ l. n (inr l)) ∙ update_field_ne f g _ s u (λ same. n (inl same)) first,
    )
  where
    self :
        (g : Field)
        → f.field ≡ g
        → (u : Settings) → update_field f (lookup (field_name f.field) updates) s ≡ ok u
        → get_field g u ≡ requested g updates (get_field g s)
    self g same u first =
        subst (λ k. get_field k u ≡ requested k updates (get_field k s)) same
          (update_field_self f _ s u first)

table_complete : (g : Field) → Listed g settings_fields
unfolding settings_fields
table_complete Field.report_wait_ms = ground arith
table_complete _ = ground arith

least_positive : (g : Field) → 1 ≤ least g
least_positive Field.report_wait_ms = omega arith
least_positive Field.cursor_ttl_secs = omega arith
least_positive Field.confirm_ttl_secs = omega arith
least_positive _ = omega arith

named-IsCut :
    (updates : Dict String Raw) (g : Field) (x : Float64) (old v : ℤ)
    → Within g v
    → v ≡ requested g updates old
    → lookup (field_name g) updates ≡ some (number x)
    → IsCut x v
named-IsCut updates g x old v within given named =
    let same : v ≡ int_of x = given ∙ ap (λ raw. wanted raw old) named in
    subst (IsCut x) (sym same)
      (int_of-IsCut x (omega (arith, least_positive g, within.0, ap pos_part same)))

-- An update of settings in range that is accepted leaves them in range, gives each field that it names
-- the number that it names without what stands behind the point, and leaves every other field alone.
pub apply_settings_update_ok :
    (updates : Dict String Raw) (s t : Settings)
    → IsSanitized s
    → apply_settings_update s updates ≡ ok t
    → IsSanitized t
      × ((g : Field) (x : Float64)
          → lookup (field_name g) updates ≡ some (number x)
          → IsCut x (get_field g t))
      × ((g : Field) → get_field g t ≡ requested g updates (get_field g s))
unfolding apply_settings_update
apply_settings_update_ok updates s t h e =
    let (u, accepted, last) =
      >>=-eq-ok (update_fields settings_fields updates s) (λ u. ok (sanitized u)) e in
    let (safe, listed, _) =
      update_fields_ok settings_fields updates s u settings_fields-Agrees h accepted in
    let same : t ≡ u = sym (ok-injective last) ∙ sanitized_fixed u safe in
    let in_range = subst IsSanitized (sym same) safe in
    let given = λ (g : Field). ap (get_field g) same ∙ listed g (table_complete g) in
    (
      in_range,
      λ g x named.
          named-IsCut updates g x (get_field g s) (get_field g t) (in_range g) (given g) named,
      given,
    )
