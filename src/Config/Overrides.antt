-- ===== src/Config/Overrides.antt =====
-- internal/config/config.go: the variable that overrides a key.
use dk_agent_memory.Config.Environment.{
  Value, text, boolean, int, float, texts, duration, unsupported, section, Fields, no_fields, field,
  EnvError, upper_case, yaml_name, env_of, settable, set_from_string, overridden, apply_value,
  apply_env, underscored, env_name, read_as,
}
use mathlib.Core.Option.{some-injective}
use dk_agent_memory.Base.{
  ℕ, ◌≡◌, refl, sym, ◌∙◌, ◌≢◌, inl, inr, Bool, true, false, ◌&&◌, Option, none, some, List, [], ◌∷◌,
  ◌++◌, map, append_assoc, ◌==◌, if◌then◌else◌, ==_iff, Bool-cases, All, ℤ, atoi, Text, codes,
  text_eq, text_eq_iff, Result, ok_inj, >>=-eq-ok, join, ok,
}

-- The value under a list of names, no struct itself.
abbrev mutual
  pub inside : {F : Type 0} → Value F → List Text → Option (Value F)
  inside (section fs) ns = leaf_at fs ns
  inside (text old) [] = some (text old)
  inside (boolean old) [] = some (boolean old)
  inside (int old) [] = some (int old)
  inside (float old) [] = some (float old)
  inside (texts old) [] = some (texts old)
  inside (duration old) [] = some (duration old)
  inside unsupported [] = some unsupported
  inside (text old) (n ∷ ns) = none
  inside (boolean old) (n ∷ ns) = none
  inside (int old) (n ∷ ns) = none
  inside (float old) (n ∷ ns) = none
  inside (texts old) (n ∷ ns) = none
  inside (duration old) (n ∷ ns) = none
  inside unsupported (n ∷ ns) = none

  pub leaf_at : {F : Type 0} → Fields F → List Text → Option (Value F)
  leaf_at no_fields ns = none
  leaf_at (field exported tag v fs) [] = none
  leaf_at (field exported tag v fs) (n ∷ ns) =
      if settable exported (yaml_name tag) && text_eq (yaml_name tag) n
      then inside v ns
      else leaf_at fs (n ∷ ns)

-- The variable of the names, from the prefix on.
abbrev env_at : Text → List Text → Text
env_at prefix [] = prefix
env_at prefix (n ∷ ns) = env_at (env_of prefix n) ns

abbrev pub NoDot : Text → Type 0
NoDot = All (λ (c : ℕ). c ≢ b'.')

underscored_lem : (s : Text) → NoDot s → underscored s ≡ s
underscored_lem [] h = refl
underscored_lem (c ∷ s) (h, hs) = elim (Bool-cases (c == b'.')) [
  | inl dot ↦ absurd (h ((==_iff c b'.').0 dot))
  | inr other ↦ rw (other, underscored_lem s hs) refl
]

map-append : {A B : Type 0} (f : A → B) (xs ys : List A) → map f (xs ++ ys) ≡ map f xs ++ map f ys
map-append f [] ys = refl
map-append f (x ∷ xs) ys = rw (map-append f xs ys) refl

env_name-nested :
    (prefix n rest : Text)
    → NoDot n
    → env_name (env_of prefix n) rest ≡ env_name prefix (n ++ (b'.' ∷ rest))
env_name-nested prefix n rest h =
    rw
      (
        map-append (λ (c : ℕ). if c == b'.' then b'_' else c) n (b'.' ∷ rest),
        underscored_lem n h,
        map-append upper_case n (b'_' ∷ underscored rest),
        append_assoc prefix (b'_' ∷ map upper_case n) (b'_' ∷ map upper_case (underscored rest)),
      )
      refl

both : (a b : Bool) → (a && b) ≡ true → (a ≡ true) × (b ≡ true)
both true true h = (refl, refl)
both true false h = cc
both false b h = cc

-- The variable that a missing key's error names is the one that the field of that key reads.
env_at-join :
    (prefix : Text) (n : Text) (ns : List Text)
    → NoDot n
    → All NoDot ns
    → env_at prefix (n ∷ ns) ≡ env_name prefix (join (codes ".") (n ∷ ns))
unfolding join
env_at-join prefix n [] h hs = rw (underscored_lem n h) refl
env_at-join prefix n (m ∷ ns) h (hm, hs) =
    env_at-join (env_of prefix n) m ns hm hs
    ∙ env_name-nested prefix n (join (codes ".") (m ∷ ns)) h

module _ {F : Type 0} (parse_bool : Text → Option Bool) (parse_float : Text → Option F)
    (parse_duration : Text → Option ℤ) (lookup : Text → Option Text) where
  abbrev override : Text → Value F → Option Text → Result EnvError (Value F)
  override = overridden parse_bool parse_float parse_duration

  -- The value is the one from before, overridden by the variable.
  abbrev OverriddenIn : Option (Value F) → Text → Value F → Type 0
  OverriddenIn o env u = (x : Value F) × (o ≡ some x) × (override env u (lookup env) ≡ ok x)

  read_as-leaf :
      {A : Type 0} (env raw : Text) (kind : A → Value F) (o : Option A) (w : Value F)
      → ((a : A) → inside (kind a) [] ≡ some (kind a))
      → read_as env raw kind o ≡ ok w
      → inside w [] ≡ some w
  read_as-leaf env raw kind none w leaf e = cc
  read_as-leaf env raw kind (some a) w leaf e = rw (← ok_inj e) (leaf a)

  override-leaf :
      (env : Text) (v w : Value F) (o : Option Text)
      → inside v [] ≡ some v
      → override env v o ≡ ok w
      → inside w [] ≡ some w
  unfolding set_from_string
  override-leaf env v w none h e = rw (← ok_inj e) h
  override-leaf env (text old) w (some raw) h e = rw (← ok_inj e) refl
  override-leaf env (boolean old) w (some raw) h e =
      read_as-leaf env raw boolean (parse_bool raw) w (λ a. refl) e
  override-leaf env (int old) w (some raw) h e = read_as-leaf env raw int (atoi raw) w (λ a. refl) e
  override-leaf env (float old) w (some raw) h e =
      read_as-leaf env raw float (parse_float raw) w (λ a. refl) e
  override-leaf env (texts old) w (some raw) h e = rw (← ok_inj e) refl
  override-leaf env (duration old) w (some raw) h e =
      read_as-leaf env raw duration (parse_duration raw) w (λ a. refl) e
  override-leaf env unsupported w (some raw) h e = cc
  override-leaf env (section fs) w (some raw) h e = cc

  leaf_case :
      (v w : Value F) (env : Text) (ns : List Text) (u : Value F)
      → inside v [] ≡ some v
      → ((n : Text) (ms : List Text) → inside v (n ∷ ms) ≡ none)
      → override env v (lookup env) ≡ ok w
      → inside v ns ≡ some u
      → OverriddenIn (inside w ns) (env_at env ns) u
  leaf_case v w env [] u leaf deeper e h =
      let same : v ≡ u = some-injective v u (sym leaf ∙ h) in
      (w, override-leaf env v w (lookup env) leaf e, rw (← same) e)
  leaf_case v w env (n ∷ ns) u leaf deeper e h = absurd (cc (deeper n ns))

  mutual
    unfolding apply_value apply_env

    leaf_value :
        (v w : Value F) (env : Text) (ns : List Text) (u : Value F)
        → apply_value parse_bool parse_float parse_duration lookup v env ≡ ok w
        → inside v ns ≡ some u
        → OverriddenIn (inside w ns) (env_at env ns) u
    leaf_value (section fs) w env ns u e h =
        let (gs, e1, e2) =
          >>=-eq-ok (apply_env parse_bool parse_float parse_duration lookup fs env) _ e in
        rw (← ok_inj e2) (leaf_fields fs gs env ns u e1 h)
    leaf_value (text old) w env ns u e h = leaf_case (text old) w env ns u refl (λ n ms. refl) e h
    leaf_value (boolean old) w env ns u e h =
        leaf_case (boolean old) w env ns u refl (λ n ms. refl) e h
    leaf_value (int old) w env ns u e h = leaf_case (int old) w env ns u refl (λ n ms. refl) e h
    leaf_value (float old) w env ns u e h = leaf_case (float old) w env ns u refl (λ n ms. refl) e h
    leaf_value (texts old) w env ns u e h = leaf_case (texts old) w env ns u refl (λ n ms. refl) e h
    leaf_value (duration old) w env ns u e h =
        leaf_case (duration old) w env ns u refl (λ n ms. refl) e h
    leaf_value unsupported w env ns u e h = leaf_case unsupported w env ns u refl (λ n ms. refl) e h

    leaf_fields :
        (fs gs : Fields F) (prefix : Text) (ns : List Text) (u : Value F)
        → apply_env parse_bool parse_float parse_duration lookup fs prefix ≡ ok gs
        → leaf_at fs ns ≡ some u
        → OverriddenIn (leaf_at gs ns) (env_at prefix ns) u
    leaf_fields no_fields gs prefix ns u e h = cc
    leaf_fields (field exported tag v fs) gs prefix [] u e h = cc
    leaf_fields (field exported tag v fs) gs prefix (n ∷ ns) u e h =
        let (w, e1, e2) =
          >>=-eq-ok
            (if settable exported (yaml_name tag)
              then apply_value parse_bool parse_float parse_duration lookup v
                  (env_of prefix (yaml_name tag))
              else ok v)
            _ e in
        let (hs, e3, e4) =
          >>=-eq-ok (apply_env parse_bool parse_float parse_duration lookup fs prefix) _ e2 in
        rw (← ok_inj e4)
          (elim (Bool-cases (settable exported (yaml_name tag) && text_eq (yaml_name tag) n)) [
            | inl this ↦
                let (may, named) =
                  both (settable exported (yaml_name tag)) (text_eq (yaml_name tag) n) this in
                let run : apply_value parse_bool parse_float parse_duration lookup v
                      (env_of prefix (yaml_name tag))
                    ≡ ok w =
                  rw may at e1 in
                let held : inside v ns ≡ some u = rw this at h in
                rw (this, ← (text_eq_iff (yaml_name tag) n).0 named)
                  (leaf_value v w (env_of prefix (yaml_name tag)) ns u run held)
            | inr other ↦
                let held : leaf_at fs (n ∷ ns) ≡ some u = rw other at h in
                rw other (leaf_fields fs hs prefix (n ∷ ns) u e3 held)
          ])

  -- After the overrides each setting has what its environment variable says, read as the kind of the
  -- setting, or where that is unset, what it had; and this variable is the one that the error for the
  -- missing key names. The names of the setting have no dot in them.
  pub apply_env-leaf_at :
      (fs gs : Fields F) (prefix n : Text) (ns : List Text) (u : Value F)
      → NoDot n
      → All NoDot ns
      → apply_env parse_bool parse_float parse_duration lookup fs prefix ≡ ok gs
      → leaf_at fs (n ∷ ns) ≡ some u
      → (x : Value F) × (leaf_at gs (n ∷ ns) ≡ some x)
        × (overridden parse_bool parse_float parse_duration
              (env_name prefix (join (codes ".") (n ∷ ns)))
              u
              (lookup (env_name prefix (join (codes ".") (n ∷ ns))))
            ≡ ok x)
  apply_env-leaf_at fs gs prefix n ns u h hs e at =
      rw (← env_at-join prefix n ns h hs) (leaf_fields fs gs prefix (n ∷ ns) u e at)
