-- ===== src/Policy/Secrets.antt =====
-- policy.py: the credentials in the environment of a process.
use owlmatic.Prelude.{
  ◌≡◌, refl, true, false, Text, List, [], ◌∷◌, Option, none, some, contains, ◌==◌, text_eq,
  text_beq_iff, is_empty, arith, Bool-cases, inl, inr,
}
use owlmatic.Errors.{ok, >>=-eq-ok}
use owlmatic.Domain.{Workflow, Profile}
use owlmatic.Policy.Variables.{
  Ambient, Environment, lookup, with_value, add, target_of, value_of, present, bind_value, bind,
  insert_secret, longest_first, environment_for, inherit, initial,
}

contains-add : (s v : Text) (xs : List Text) → contains s xs ≡ true → contains s (add v xs) ≡ true
contains-add s v xs h = ground arith

contains-add_self : (v : Text) (xs : List Text) → contains v (add v xs) ≡ true
contains-add_self v xs = ground (arith, text_beq_iff v v)

-- What binding one credential gives.
bind_value-ok :
    (target : Text) (value : Option Text) (names : List Text) (e e' : Environment)
    → bind_value target value names e ≡ ok e'
    → (v : Text) × (value ≡ some v)
      × (contains target names ≡ false)
      × (e' ≡ with_value target v true e)
unfolding bind_value
bind_value-ok target none names e e' h = absurd (ground arith)
bind_value-ok target (some v) names e e' h = (v, refl, ground arith, ground arith)

bind-contains :
    (ambient : Ambient) (p : Profile) (bindings names : List Text) (e e' : Environment) (s : Text)
    → bind ambient p bindings names e ≡ ok e'
    → contains s e.secrets ≡ true
    → contains s e'.secrets ≡ true
unfolding bind
bind-contains ambient p [] names e e' s h c = ground arith
bind-contains ambient p (b ∷ bindings) names e e' s h c =
    let (bound, first, rest) =
      >>=-eq-ok
        (bind_value (target_of b) (value_of ambient (present (lookup b p.credentials))) names e) _
        h in
    let (v, _, _, same) = bind_value-ok _ _ names e bound first in
    bind-contains ambient p bindings (target_of b ∷ names) bound e' s rest
      (ground (arith, contains-add s v e.secrets))

bind-lookup :
    (ambient : Ambient) (p : Profile) (bindings names : List Text) (e e' : Environment) (t : Text)
    → bind ambient p bindings names e ≡ ok e'
    → contains t names ≡ true
    → lookup t e'.values ≡ lookup t e.values
unfolding bind
bind-lookup ambient p [] names e e' t h c = ground arith
bind-lookup ambient p (b ∷ bindings) names e e' t h c =
    let (bound, first, rest) =
      >>=-eq-ok
        (bind_value (target_of b) (value_of ambient (present (lookup b p.credentials))) names e) _
        h in
    let (v, _, fresh, same) = bind_value-ok _ _ names e bound first in
    let kept =
      bind-lookup ambient p bindings (target_of b ∷ names) bound e' t rest (ground arith) in
    unfold lookup in ground (arith, text_beq_iff (target_of b) t)

-- A credential in the environment: its value is what the profile's source holds, and is a secret.
pub record IsBound (ambient : Ambient) (p : Profile) (binding : Text) (e : Environment)
    : Type 0 where
  pub value : Text
  pub from_source : value_of ambient (present (lookup binding p.credentials)) ≡ some value
  pub exported : lookup (target_of binding) e.values ≡ some value
  pub secret : contains value e.secrets ≡ true

bind-IsBound :
    (ambient : Ambient) (p : Profile) (bindings names : List Text) (e e' : Environment)
    (binding : Text)
    → bind ambient p bindings names e ≡ ok e'
    → contains binding bindings ≡ true
    → IsBound ambient p binding e'
unfolding bind
bind-IsBound ambient p [] names e e' binding h c = absurd (ground arith)
bind-IsBound ambient p (b ∷ bindings) names e e' binding h c =
    let (bound, first, rest) =
      >>=-eq-ok
        (bind_value (target_of b) (value_of ambient (present (lookup b p.credentials))) names e) _
        h in
    let (v, there, fresh, same) = bind_value-ok _ _ names e bound first in
    elim (Bool-cases (b == binding)) [
      | inl here ↦
          let equal : b ≡ binding = (text_beq_iff b binding).0 here in
          let kept =
            bind-lookup ambient p bindings (target_of b ∷ names) bound e' (target_of b) rest
              (ground (arith, text_beq_iff (target_of b) (target_of b))) in
          record {
            value = v;
            from_source = ground arith;
            exported = unfold lookup in ground (arith, text_beq_iff (target_of b) (target_of b));
            secret =
                bind-contains ambient p bindings (target_of b ∷ names) bound e' v rest
                  (ground (arith, contains-add_self v e.secrets));
          }
      | inr later ↦
          bind-IsBound ambient p bindings (target_of b ∷ names) bound e' binding rest (ground arith)
    ]

contains-insert_secret :
    (s v : Text) (xs : List Text)
    → contains s (v ∷ xs) ≡ true
    → contains s (insert_secret v xs) ≡ true
unfolding insert_secret
contains-insert_secret s v [] h = h
contains-insert_secret s v (x ∷ xs) h = ground (arith, contains-insert_secret s v xs)

contains-longest_first :
    (s : Text) (xs : List Text)
    → is_empty s ≡ false
    → contains s xs ≡ true
    → contains s (longest_first xs) ≡ true
unfolding longest_first
contains-longest_first s [] full h = h
contains-longest_first s ([] ∷ xs) full h =
    ground (arith, text_beq_iff [] s, contains-longest_first s xs)
contains-longest_first s ((c ∷ x) ∷ xs) full h =
    ground (arith, contains-insert_secret s (c ∷ x) (longest_first xs), contains-longest_first s xs)

value_of-full :
    (ambient : Ambient) (source : Option Text) (v : Text)
    → value_of ambient source ≡ some v
    → is_empty v ≡ false
value_of-full ambient none v h = absurd (ground arith)
value_of-full ambient (some source) v h = ground arith

-- If the environment of a process can be made, each credential that the workflow declares is in it
-- under its own name with the value of the source that the profile binds, and that value is among
-- the secrets that the policy looks for and the redaction replaces.
pub environment_for-IsBound :
    (w : Workflow) (p : Profile) (ambient : Ambient) (e : Environment) (binding : Text)
    → environment_for w p ambient ≡ ok e
    → contains binding w.manifest.credentials ≡ true
    → IsBound ambient p binding e
unfolding environment_for
environment_for-IsBound w p ambient e binding h c =
    let (inherited, _, h1) = >>=-eq-ok (inherit ambient p.env (initial ambient)) _ h in
    let (bound, h2, h3) = >>=-eq-ok (bind ambient p w.manifest.credentials [] inherited) _ h1 in
    let b = bind-IsBound ambient p w.manifest.credentials [] inherited bound binding h2 c in
    record {
      value = b.value;
      from_source = b.from_source;
      exported = ground (arith, b.exported);
      secret = ground (
        arith,
        contains-longest_first b.value bound.secrets
            (value_of-full ambient (present (lookup binding p.credentials)) b.value b.from_source)
            b.secret,
      );
    }
