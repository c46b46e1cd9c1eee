-- ===== src/Export/Numbering.antt =====
-- export_service.py: the numbers of the transmitted snapshots.
use owlmatic.Prelude.{
  ℕ, ◌≡◌, ◌≤◌, ◌+◌, refl, sym, ◌⊎◌, inl, inr, Bool, true, false, ◌&&◌, ◌||◌, not, Option, none,
  some, is_none, List, [], ◌∷◌, ◌++◌, All, ltb, ◌==◌, string_eq, option_eq, arith, Bool-cases,
}
use mathlib.Core.Path.{subst}
use owlmatic.Actions.{lift}
use owlmatic.Errors.{Result, ok, err, Result-cases}
use owlmatic.Export.Contracts.{Snapshot, body}
use owlmatic.Export.State.{
  ExportConfiguration, ExportState, PendingExport, is_disabled, is_automatic,
}
use owlmatic.Export.Service.{
  Encoding, Inputs, Outbox, reconfigure, drop_stale, is_stale, synchronize, prepared, prepare,
  failed_export, conclude, deliver, is_given_up, push_pending, push_from, push,
}
use owlmatic.Export.Delivery.{prepare-ok}

abbrev pub number : Snapshot → ℕ
number x = (body x).sequence

-- The same snapshot, if the number is the same.
abbrev pub Agrees : Snapshot → Snapshot → Type 0
Agrees x y = number y ≡ number x → y ≡ x

abbrev pub Unique : List Snapshot → Type 0
Unique [] = Unit
Unique (x ∷ xs) = All (λ y. Agrees y x) xs × Unique xs

-- The numbers of the outbox: none sent is above the counter, the pending one is the latest, and no
-- number stands for two snapshots.
pub record IsNumbered (s : ExportState) (sent : List Snapshot) : Type 0 where
  pub latest : (p : PendingExport) → s.pending ≡ some p → number p.snapshot ≡ s.sequence
  pub bounded : All (λ y. number y ≤ s.sequence) sent
  pub same : (p : PendingExport) → s.pending ≡ some p → All (Agrees p.snapshot) sent
  pub unique : Unique sent

module _ {ℓ} {A : Type ℓ} where
  All-map {κ κ'} :
      {P : A → Type κ} {Q : A → Type κ'}
      → ((x : A) → P x → Q x)
      → (xs : List A) → All P xs
      → All Q xs
  All-map f [] u = tt
  All-map f (x ∷ xs) (p, ps) = (f x p, All-map f xs ps)

  All-append {κ} : (P : A → Type κ) (xs : List A) (x : A) → All P xs → P x → All P (xs ++ x ∷ [])
  All-append P [] x u p = (p, tt)
  All-append P (y ∷ xs) x (q, qs) p = (q, All-append P xs x qs p)

Unique-append :
    (xs : List Snapshot) (x : Snapshot) → Unique xs → All (Agrees x) xs → Unique (xs ++ x ∷ [])
Unique-append [] x u a = (tt, tt)
Unique-append (y ∷ xs) x (fresh, rest) (a, as_) =
    (All-append (λ z. Agrees z y) xs x fresh a, Unique-append xs x rest as_)

-- A state that only forgets its pending snapshot stays numbered.
forget-IsNumbered :
    (s s' : ExportState) (sent : List Snapshot)
    → s'.sequence ≡ s.sequence
    → (s'.pending ≡ none) ⊎ (s'.pending ≡ s.pending)
    → IsNumbered s sent
    → IsNumbered s' sent
forget-IsNumbered s s' sent counter q n = record {
  latest = λ p h. ground (arith, n.latest p);
  bounded = All-map (λ y b. ground arith) sent n.bounded;
  same = λ p h. n.same p (ground arith);
  unique = n.unique;
}

synchronize-forgets :
    (e : Encoding) (config : ExportConfiguration) (now : ℕ) (s : ExportState)
    → ((synchronize e config now s).sequence ≡ s.sequence)
      × (((synchronize e config now s).pending ≡ none)
          ⊎ ((synchronize e config now s).pending ≡ s.pending))
unfolding synchronize reconfigure drop_stale
synchronize-forgets e config now s =
    elim (Bool-cases (s.configuration_digest == some (e.configuration_digest config))) [
      | inl same ↦
          elim (Bool-cases (is_stale config.delivery.pending_retention_days now s.pending)) [
            | inl old ↦ rw (same, old) (refl, inl refl)
            | inr new ↦ rw (same, new) (refl, inr refl)
          ]
      | inr changed ↦ rw (changed) (refl, inl refl)
    ]

-- A new snapshot has a number that was never sent.
prepared-IsNumbered :
    (s : ExportState) (value : Snapshot) (now : ℕ) (sent : List Snapshot)
    → number value ≡ s.sequence + 1
    → IsNumbered s sent
    → IsNumbered (prepared s value now) sent
prepared-IsNumbered s value now sent next n = record {
  latest = λ p h. ground arith;
  bounded = All-map (λ y b. ground arith) sent n.bounded;
  same = λ p h. All-map (λ y b again. absurd (ground arith)) sent n.bounded;
  unique = n.unique;
}

prepare-IsNumbered :
    (e : Encoding) (config : ExportConfiguration) (s s' : ExportState) (i : Inputs)
    (automatic : Bool) (sent : List Snapshot)
    → prepare e config s i automatic ≡ ok s'
    → IsNumbered s sent
    → IsNumbered s' sent
prepare-IsNumbered e config s s' i automatic sent h n =
    elim (prepare-ok e config s s' i automatic h) [
      | inl same ↦ subst (λ t. IsNumbered t sent) (sym same) n
      | inr (value, free, next, made) ↦
          subst (λ t. IsNumbered t sent) (sym made) (prepared-IsNumbered s value i.now sent next n)
    ]

-- Transmitting the pending snapshot keeps the numbers.
sent-IsNumbered :
    (s : ExportState) (p : PendingExport) (sent : List Snapshot)
    → s.pending ≡ some p
    → IsNumbered s sent
    → IsNumbered s (sent ++ p.snapshot ∷ [])
sent-IsNumbered s p sent here n = record {
  latest = n.latest;
  bounded =
      All-append (λ y. number y ≤ s.sequence) sent p.snapshot n.bounded
        (omega (arith, n.latest p here));
  same = λ q h. All-append (Agrees q.snapshot) sent p.snapshot (n.same q h) (λ again. ground arith);
  unique = Unique-append sent p.snapshot n.unique (n.same p here);
}

retry-IsNumbered :
    (s s' : ExportState) (p q : PendingExport) (sent : List Snapshot)
    → s.pending ≡ some p
    → s'.pending ≡ some q
    → q.snapshot ≡ p.snapshot
    → s'.sequence ≡ s.sequence
    → IsNumbered s sent
    → IsNumbered s' sent
retry-IsNumbered s s' p q sent here there equal counter n = record {
  latest = λ r h. ground (arith, n.latest p here);
  bounded = All-map (λ y b. ground arith) sent n.bounded;
  same = λ r h. All-map (λ y a. ground arith) sent (n.same p here);
  unique = n.unique;
}

conclude-IsNumbered :
    (e : Encoding) (config : ExportConfiguration) (s : ExportState) (p : PendingExport) (later : ℕ)
    (r : Result (Unit {0})) (o : Outbox)
    → s.pending ≡ some p
    → IsNumbered s o.sent
    → IsNumbered (conclude e config s p later r o).1.state (conclude e config s p later r o).1.sent
unfolding conclude failed_export
conclude-IsNumbered e config s p later (ok u) o here n =
    forget-IsNumbered s _ o.sent refl (inl refl) n
conclude-IsNumbered e config s p later (err x) o here n =
    retry-IsNumbered s _ p _ o.sent here refl refl refl n

deliver-IsNumbered :
    (e : Encoding) (config : ExportConfiguration) (s : ExportState) (p : PendingExport) (i : Inputs)
    (o : Outbox)
    → s.pending ≡ some p
    → IsNumbered s o.sent
    → IsNumbered (deliver e config s p i o).1.state (deliver e config s p i o).1.sent
unfolding deliver
deliver-IsNumbered e config s p i o here n =
    conclude-IsNumbered e config s p i.later i.answer
      (record o { sent = o.sent ++ p.snapshot ∷ [] }) here (sent-IsNumbered s p o.sent here n)

push_pending-IsNumbered :
    (e : Encoding) (config : ExportConfiguration) (q : Option PendingExport) (i : Inputs)
    (retry : Bool) (o : Outbox)
    → o.state.pending ≡ q
    → IsNumbered o.state o.sent
    → IsNumbered
        (push_pending e config o.state q i retry o).1.state
        (push_pending e config o.state q i retry o).1.sent
unfolding push_pending
push_pending-IsNumbered e config none i retry o here n = n
push_pending-IsNumbered e config (some p) i true o here n =
    deliver-IsNumbered e config o.state p i o here n
push_pending-IsNumbered e config (some p) i false o here n =
    elim (Bool-cases (is_given_up config p)) [
      | inl over ↦ rw over n
      | inr alive ↦ elim (Bool-cases (ltb i.now p.next_attempt_at)) [
        | inl early ↦ rw (alive, early) n
        | inr due ↦ rw (alive, due) (deliver-IsNumbered e config o.state p i o here n)
      ]
    ]

push_from-IsNumbered :
    (e : Encoding) (config : ExportConfiguration) (i : Inputs) (retry automatic : Bool) (o : Outbox)
    → IsNumbered o.state o.sent
    → IsNumbered
        (push_from e config o.state i retry automatic o).1.state
        (push_from e config o.state i retry automatic o).1.sent
unfolding push_from
push_from-IsNumbered e config i retry automatic o n =
    elim (Bool-cases (is_disabled config.mode || (automatic && not (is_automatic config.mode)))) [
      | inl off ↦ rw off n
      | inr on ↦ elim (Bool-cases (retry && is_none o.state.pending)) [
        | inl nothing ↦ rw (on, nothing) n
        | inr waiting ↦ elim (Result-cases (prepare e config o.state i automatic)) [
          | inr (x, refused) ↦ rw (on, waiting, refused, lift) n
          | inl (s', ready) ↦
              rw (on, waiting, ready, lift)
                (push_pending-IsNumbered e config s'.pending i retry (record o { state = s' }) refl
                  (prepare-IsNumbered e config o.state s' i automatic o.sent ready n))
        ]
      ]
    ]

push-IsNumbered :
    (e : Encoding) (config : ExportConfiguration) (i : Inputs) (retry automatic : Bool) (o : Outbox)
    → IsNumbered o.state o.sent
    → IsNumbered
        (push e config i retry automatic o).1.state
        (push e config i retry automatic o).1.sent
unfolding push
push-IsNumbered e config i retry automatic o n =
    let (counter, q) = synchronize-forgets e config i.now o.state in
    let s = synchronize e config i.now o.state in
    push_from-IsNumbered e config i retry automatic (record o { state = s })
      (forget-IsNumbered o.state s o.sent counter q n)

-- One call of `push`, with the configuration it reads.
pub record Call : Type 0 where
  pub encoding : Encoding
  pub config : ExportConfiguration
  pub inputs : Inputs
  pub retry : Bool
  pub automatic : Bool

abbrev pub pushes : List Call → Outbox → Outbox
pushes [] o = o
pushes (c ∷ cs) o = pushes cs (push c.encoding c.config c.inputs c.retry c.automatic o).1

-- Whatever calls of `push` follow each other, manual, automatic or repeated, with configurations
-- that change in between and transmissions that fail or not: if no two different snapshots have
-- been sent under one number, and the counter is up to date, this stays so.
pub pushes-IsNumbered :
    (calls : List Call) (o : Outbox)
    → IsNumbered o.state o.sent
    → IsNumbered (pushes calls o).state (pushes calls o).sent
pushes-IsNumbered [] o n = n
pushes-IsNumbered (c ∷ cs) o n =
    pushes-IsNumbered cs _ (push-IsNumbered c.encoding c.config c.inputs c.retry c.automatic o n)
