-- ===== src/Custody/Tracker/Rules.antt =====
-- Which event the rules of tracker.rs let follow a history.
use vajra_forensics_platform.Prelude.{
  ℕ, ◌≤◌, ◌≡◌, ◌≢◌, ◌⊎◌, refl, ap, ◌↔◌, Bool, true, false, Option, none, some, List, [], ◌∷◌, ◌++◌,
  String, ok, arith, inl, inr, Option-cases, Bool-cases,
}
use vajra_forensics_platform.Custody.Events.{
  CustodyEventType, seized, received, transferred, returned, disposed, CustodyEvent, is_terminal,
}
use vajra_forensics_platform.Custody.Tracker.{
  is_initial, is_transfer, is_none, last_event, goes_back, validate_after, validate_candidate_event,
}

is_terminal_iff :
    (t : CustodyEventType) → (is_terminal t ≡ false) ↔ ((t ≢ returned) × (t ≢ disposed))
unfolding is_terminal
is_terminal_iff returned = (λ h. absurd (ground (arith, h)), λ p. absurd (p.0 refl))
is_terminal_iff disposed = (λ h. absurd (ground (arith, h)), λ p. absurd (p.1 refl))
is_terminal_iff t = (
  λ h. (
    λ e. absurd (ground (arith, ap is_terminal e)),
    λ e. absurd (ground (arith, ap is_terminal e)),
  ),
  λ p. refl,
)

is_initial_iff : (t : CustodyEventType) → (is_initial t ≡ true) ↔ ((t ≡ seized) ⊎ (t ≡ received))
unfolding is_initial
is_initial_iff seized = (λ h. inl refl, λ s. refl)
is_initial_iff received = (λ h. inr refl, λ s. refl)
is_initial_iff t = (
  λ h. absurd (ground (arith, h)),
  λ s. elim s [ inl e ↦ ap is_initial e | inr e ↦ ap is_initial e ],
)

is_transfer_iff : (t : CustodyEventType) → (is_transfer t ≡ true) ↔ (t ≡ transferred)
unfolding is_transfer
is_transfer_iff transferred = (λ h. refl, λ e. refl)
is_transfer_iff t = (λ h. absurd (ground (arith, h)), λ e. ap is_transfer e)

is_none_iff : (o : Option String) → (is_none o ≡ false) ↔ ((p : String) × (o ≡ some p))
is_none_iff none = (λ h. absurd (ground (arith, h)), λ p. absurd (ground (arith, p.1)))
is_none_iff (some p) = (λ h. (p, refl), λ q. refl)

module _ (parse : String → Option ℕ) where
  -- What the rules ask of an event after another: the evidence was not given up, a transfer names
  -- both parties, and time does not go back.
  pub record Follows (last e : CustodyEvent) : Type 0 where
    pub open_ended : (last.event_type ≢ returned) × (last.event_type ≢ disposed)
    pub parties :
        e.event_type ≡ transferred
        → ((p : String) × (e.from_party ≡ some p)) × ((q : String) × (e.to_party ≡ some q))
    pub in_order :
        (t u : ℕ) → parse last.timestamp_utc ≡ some t → parse e.timestamp_utc ≡ some u → t ≤ u

  goes_back_iff :
      (s t : String)
      → (goes_back parse s t ≡ false)
        ↔ ((t₁ t₂ : ℕ) → parse s ≡ some t₁ → parse t ≡ some t₂ → t₁ ≤ t₂)
  unfolding goes_back
  goes_back_iff s t = (
    λ no t₁ t₂ p q. ground (arith, no, p, q),
    λ bound. elim (Option-cases (parse s)) [
      | inl p ↦ ground (arith, p)
      | inr (t₁, p) ↦ elim (Option-cases (parse t)) [
        | inl q ↦ ground (arith, p, q)
        | inr (t₂, q) ↦ let le = bound t₁ t₂ p q in ground (arith, p, q, le)
      ]
    ],
  )

  validate_after_sound :
      (last e : CustodyEvent) (b : Bool) → validate_after parse last e ≡ ok b → Follows last e
  unfolding validate_after
  validate_after_sound last e b h = record {
    open_ended = (is_terminal_iff last.event_type).0 (ground (arith, h));
    parties = λ transfer.
        let t = (is_transfer_iff e.event_type).1 transfer in
        (
          (is_none_iff e.from_party).0 (ground (arith, h, t)),
          (is_none_iff e.to_party).0 (ground (arith, h, t)),
        );
    in_order = (goes_back_iff last.timestamp_utc e.timestamp_utc).0 (ground (arith, h));
  }

  validate_after_complete :
      (last e : CustodyEvent) → Follows last e → validate_after parse last e ≡ ok true
  unfolding validate_after
  validate_after_complete last e f =
      let forward = (goes_back_iff last.timestamp_utc e.timestamp_utc).1 f.in_order in
      let unended = (is_terminal_iff last.event_type).1 f.open_ended in
      elim (Bool-cases (is_transfer e.event_type)) [
        | inl t ↦
            let (from, to) = f.parties ((is_transfer_iff e.event_type).0 t) in
            let p = (is_none_iff e.from_party).1 from in
            let q = (is_none_iff e.to_party).1 to in ground (arith, unended, forward, t, p, q)
        | inr t ↦ ground (arith, unended, forward, t)
      ]

  -- A chain of custody: it begins with a seizure or a receipt, and every event may follow the one
  -- before it.
  unfoldable pub FollowsFrom : CustodyEvent → List CustodyEvent → Type 0
  FollowsFrom e [] = Unit
  FollowsFrom e (f ∷ fs) = Follows e f × FollowsFrom f fs

  unfoldable pub IsCustodyChain : List CustodyEvent → Type 0
  IsCustodyChain [] = Unit
  IsCustodyChain (e ∷ es) = ((e.event_type ≡ seized) ⊎ (e.event_type ≡ received)) × FollowsFrom e es

  FollowsFrom-snoc :
      (e : CustodyEvent) (es : List CustodyEvent) (c : CustodyEvent)
      → FollowsFrom e es
      → FollowsFrom e (es ++ c ∷ []) ↔ Follows (last_event e es) c
  unfolding FollowsFrom last_event
  FollowsFrom-snoc e [] c chain = (λ p. p.0, λ f. (f, tt))
  FollowsFrom-snoc e (f ∷ fs) c (step, chain) =
      let (there, back) = FollowsFrom-snoc f fs c chain in
      (λ p. there p.1, λ last. (step, back last))

  -- An event is accepted after a chain of custody exactly when the two together are a chain of
  -- custody: it begins with a seizure or a receipt, nothing follows a return or a disposal, a
  -- later transfer names both parties, and timestamps that parse do not go back.
  pub validate_candidate_event_iff :
      (history : List CustodyEvent) (c : CustodyEvent)
      → IsCustodyChain history
      → (validate_candidate_event parse history c ≡ ok true) ↔ IsCustodyChain (history ++ c ∷ [])
  unfolding validate_candidate_event IsCustodyChain FollowsFrom
  validate_candidate_event_iff [] c chain = (
    λ h. ((is_initial_iff c.event_type).0 (ground (arith, h)), tt),
    λ p. let first = (is_initial_iff c.event_type).1 p.0 in ground (arith, first),
  )
  validate_candidate_event_iff (e ∷ es) c (first, chain) =
      let (there, back) = FollowsFrom-snoc e es c chain in
      (
        λ h. (first, back (validate_after_sound (last_event e es) c true h)),
        λ p. validate_after_complete (last_event e es) c (there p.1),
      )

  pub validate_candidate_event-true :
      (history : List CustodyEvent) (c : CustodyEvent) (b : Bool)
      → validate_candidate_event parse history c ≡ ok b
      → validate_candidate_event parse history c ≡ ok true
  unfolding validate_candidate_event validate_after
  validate_candidate_event-true [] c b h = ground (arith, h)
  validate_candidate_event-true (e ∷ es) c b h = ground (arith, h)
