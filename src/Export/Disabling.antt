-- ===== src/Export/Disabling.antt =====
-- export_service.py `disable`: what is sent afterwards.
use owlmatic.Prelude.{
  ◌⊎◌, ℕ, ◌≡◌, refl, ◌∙◌, Bool, true, Text, Option, none, some, List, ltb, length, arith,
  Bool-cases, inl, inr,
}
use owlmatic.Errors.{Error, Result, ok, err, owl, is_decoding_error, Result-cases, export_config}
use owlmatic.Actions.{Keeps, bind-Keeps}
use owlmatic.Export.Contracts.{Snapshot}
use owlmatic.Export.State.{configured_destination}
use owlmatic.Export.Service.{Encoding, Inputs, push, push_from}
use owlmatic.Export.Configuring.{
  Observability, YamlPort, Site, default_observability, is_default, compatible_version, validated,
  decoded, read_config, configuration, previous_of, disabled_of, disable_file, synchronize_site,
  status, disable, push_site,
}

validated-compatible :
    (r : Result Observability) (o : Observability)
    → validated r ≡ ok o
    → compatible_version o ≡ ok o
unfolding validated compatible_version configured_destination
validated-compatible (err x) o h = absurd (ground arith)
validated-compatible (ok c) o h = ground arith

decoded-ok : (r : Result Observability) (o : Observability) → decoded r ≡ ok o → r ≡ ok o
decoded-ok (ok c) o h = h
decoded-ok (err x) o h = absurd (ground arith)

-- An error of the decoding is told apart from no other error.
validated-IsDecoding :
    (r : Result Observability) (x : Error)
    → ((y : Error) → r ≡ err y → is_decoding_error y ≡ true)
    → validated r ≡ err x
    → is_decoding_error x ≡ true
unfolding validated compatible_version configured_destination
validated-IsDecoding (err y) x k h = ground (arith, k y refl)
validated-IsDecoding (ok c) x k h = ground arith

default_compatible : compatible_version default_observability ≡ ok default_observability
unfolding compatible_version is_default
default_compatible = refl

disabled_compatible :
    (o : Observability)
    → compatible_version o ≡ ok o
    → compatible_version (disabled_of o) ≡ ok (disabled_of o)
unfolding compatible_version disabled_of
disabled_compatible o h = ground arith

-- The file and what was sent.
pub record IsSame (file : Option Text) (sent : List Snapshot) (s : Site) : Type 0 where
  pub same_file : s.file ≡ file
  pub same_sent : s.outbox.sent ≡ sent

synchronize-Keeps :
    (e : Encoding) (port : YamlPort) (now : ℕ) (file : Option Text) (sent : List Snapshot)
    → Keeps (IsSame file sent) (synchronize_site e port now)
unfolding synchronize_site
synchronize-Keeps e port now file sent s h = elim (Result-cases (configuration port s.file)) [
  | inl (o, good) ↦
      rw (good, synchronize_site) (record { same_file = h.same_file; same_sent = h.same_sent })
  | inr (x, bad) ↦ rw (bad, synchronize_site) h
]

status-Keeps :
    (e : Encoding) (port : YamlPort) (now : ℕ) (file : Option Text) (sent : List Snapshot)
    → Keeps (IsSame file sent) (status e port now)
unfolding status
status-Keeps e port now file sent =
    bind-Keeps (IsSame file sent) (synchronize_site e port now) _
      (synchronize-Keeps e port now file sent)
      (λ u.
        bind-Keeps (IsSame file sent) (λ s. (configuration port s.file, s)) _ (λ s h. h)
          (λ o s h. h))

push-silent :
    (e : Encoding) (port : YamlPort) (i : Inputs) (retry automatic : Bool) (s : Site)
    → (configuration port s.file ≡ err (owl export_config))
      ⊎ ((o : Observability) × (configuration port s.file ≡ ok (disabled_of o)))
    → (push_site e port i retry automatic s).1.outbox.sent ≡ s.outbox.sent
unfolding push_site
push-silent e port i retry automatic s (inl bad) = rw (bad, push_site) refl
push-silent e port i retry automatic s (inr (o, off)) =
    rw (off, push_site) (unfold push push_from disabled_of in refl)

module _ (port : YamlPort)
    (loads : (content : Text) (x : Error)
      → port.load content ≡ err x
      → is_decoding_error x ≡ true) where
  read_config-cases :
      (content : Text)
      → (read_config port content ≡ err (owl export_config))
        ⊎ ((o : Observability) × (read_config port content ≡ ok o) × (compatible_version o ≡ ok o))
  unfolding read_config
  read_config-cases content = elim (Bool-cases (ltb 65536 (length content))) [
    | inl large ↦ inl (ground arith)
    | inr small ↦ elim (Result-cases (validated (port.load content))) [
      | inl (o, good) ↦ inr (o, ground arith, validated-compatible (port.load content) o good)
      | inr (x, bad) ↦
          let e = validated-IsDecoding (port.load content) x (loads content) bad in
          inl (ground arith)
    ]
  ]

  previous-ok :
      (file : Option Text)
      → (o : Observability) × (previous_of (configuration port file) ≡ ok o)
        × (compatible_version o ≡ ok o)
  unfolding configuration previous_of
  previous-ok none = (default_observability, refl, default_compatible)
  previous-ok (some content) = elim (read_config-cases content) [
    | inl bad ↦ (default_observability, rw bad refl, default_compatible)
    | inr (o, good, valid) ↦ (o, rw good refl, valid)
  ]

  -- The file of a disabled configuration is refused, or read as it was written.
  read_disabled :
      (o : Observability)
      → compatible_version o ≡ ok o
      → port.load (port.dump (disabled_of o)) ≡ ok (disabled_of o)
      → (configuration port (some (port.dump (disabled_of o))) ≡ err (owl export_config))
        ⊎ (configuration port (some (port.dump (disabled_of o))) ≡ ok (disabled_of o))
  unfolding configuration read_config validated configured_destination
  read_disabled o valid written =
      let content = port.dump (disabled_of o) in
      elim (Bool-cases (ltb 65536 (length content))) [
        | inl large ↦ inl (ground arith)
        | inr small ↦
            let same = disabled_compatible o valid in
            inr (unfold disabled_of in ground (arith, written, same))
      ]

  disable_file-ok :
      (s : Site)
      → (o : Observability) × (previous_of (configuration port s.file) ≡ ok o)
        × (compatible_version o ≡ ok o)
        × (disable_file port s ≡ (ok tt, record s { file = some (port.dump (disabled_of o)) }))
  unfolding disable_file
  disable_file-ok s =
      let (o, there, valid) = previous-ok s.file in
      (o, there, valid, rw (there, disable_file, disabled_compatible o valid) refl)

  -- Whatever the file of the configuration holds, even if it cannot be read, disabling the export
  -- replaces it by the previous configuration (or the default one) without its export; nothing is sent
  -- meanwhile, and no later push sends anything, whatever was pending and whether it is a retry or
  -- automatic. It is assumed that the YAML of the new configuration is read as it was written, and
  -- that reading YAML raises nothing but errors of decoding.
  pub disable-silent :
      (e : Encoding) (now later : ℕ) (s : Site) (i : Inputs) (retry automatic : Bool)
      → ((o : Observability)
          → previous_of (configuration port s.file) ≡ ok o
          → port.load (port.dump (disabled_of o)) ≡ ok (disabled_of o))
      → let s' = (disable e port now later s).1 in
        (o : Observability) × (previous_of (configuration port s.file) ≡ ok o)
        × (s'.file ≡ some (port.dump (disabled_of o)))
        × (s'.outbox.sent ≡ s.outbox.sent)
        × ((push_site e port i retry automatic s').1.outbox.sent ≡ s.outbox.sent)
  unfolding disable
  disable-silent e now later s i retry automatic writes =
      let (o, there, valid, done) = disable_file-ok s in
      let content = port.dump (disabled_of o) in
      let s1 : Site = record s { file = some content } in
      let kept : IsSame (some content) s.outbox.sent (disable e port now later s).1 =
        rw (done, disable)
          (bind-Keeps (IsSame (some content) s.outbox.sent) (synchronize_site e port now) _
            (synchronize-Keeps e port now (some content) s.outbox.sent)
            (λ u. status-Keeps e port later (some content) s.outbox.sent) s1
            (record { same_file = refl; same_sent = refl })) in
      (
        o,
        there,
        kept.same_file,
        kept.same_sent,
        push-silent e port i retry automatic (disable e port now later s).1 (
              rw kept.same_file (elim (read_disabled o valid (writes o there)) [
                | inl bad ↦ inl bad
                | inr off ↦ inr (o, off)
              ]))
            ∙ kept.same_sent,
      )
