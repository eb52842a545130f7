-- ===== src/Lifecycle/Once.antt =====
-- When a source is isolated from its destination, and how often.
use mathlib.Core.Path.{subst}
use amz_command_center.Base.{
  Bool, Bool-cases, List, Option, Option-cases, String, [], arith, exists, false, inl, inr, member,
  none, not, refl, some, str_eq, str_eq_iff, sym, true, ℕ, ◌&&◌, ◌↔◌, ◌∙◌, ◌∷◌, ◌≡◌,
}
use amz_command_center.Number.{Number, lt, nought, ticks}
use amz_command_center.HumanControl.{TextCase}
use amz_command_center.Lifecycle.Defs.{
  BlockedReason, Finding, Lineage, SourceUse, Target, Thresholds, block_finding, float_or_nought,
  is_given, open_action, protection_of,
}
use amz_command_center.Lifecycle.Isolation.{
  Isolating, decide_isolation, destination_fault, is_enabled, is_quiet, isolate, isolation_fault,
  isolation_finding, isolation_findings, isolation_key, key_of, with_fault, with_key,
}

member-with_key :
    (key k : String) (seen : List String)
    → member key seen ≡ true
    → member key (with_key k seen) ≡ true
unfolding member
member-with_key key k seen e = ground arith

member-with_key_self : (k : String) (seen : List String) → member k (with_key k seen) ≡ true
unfolding member
member-with_key_self k seen = elim (Bool-cases (member k seen)) [
  | inl e ↦ rw e e
  | inr e ↦ rw e (ground (arith, str_eq_iff k k))
]

module _ {W : Type 0} ⦃n : Number W⦄ ⦃c : TextCase⦄ where
  -- The destination of the promoted term is live and has had its traffic, and nothing else forbids
  -- the negative in the source, which still competes.
  pub record IsIsolable (t : Thresholds W) (l : Lineage) (destination : Option (Target W))
      (source : SourceUse W) (protection pending : Option String) : Type 0 where
    pub target : Target W
    pub has_target : destination ≡ some target
    pub exact : str_eq l.destination_match_type "exact" ≡ true
    pub elsewhere : str_eq l.source_ad_group_id l.destination_ad_group_id ≡ false
    pub none_pending : is_given pending ≡ false
    pub not_negative : source.is_already_negative ≡ false
    pub unprotected : is_given protection ≡ false
    pub enabled : is_enabled target ≡ true
    pub busy : is_quiet t target ≡ false
    pub competing : lt nought (float_or_nought source.clicks) ≡ true

  module _ (t : Thresholds W) (l : Lineage) (destination : Option (Target W)) (source : SourceUse W)
      (protection pending : Option String) (seen : List String) where
    first : Bool
    first = not (member (key_of l) seen)

    fault_lem :
        isolation_fault t l destination source protection pending first ≡ none
        → IsIsolable t l destination source protection pending × (member (key_of l) seen ≡ false)
    unfolding isolation_fault destination_fault first
    fault_lem e = elim (Option-cases destination) [
      | inl q ↦ absurd (ground (arith, q))
      | inr (d, q) ↦ (
        record {
          target = d;
          has_target = q;
          exact = ground (arith, q);
          elsewhere = ground (arith, q);
          none_pending = ground (arith, q);
          not_negative = ground (arith, q);
          unprotected = ground (arith, q);
          enabled = ground (arith, q);
          busy = ground (arith, q);
          competing = ground (arith, q);
        },
        ground (arith, q),
      )
    ]

    isolable_lem :
        IsIsolable t l destination source protection pending
        → member (key_of l) seen ≡ false
        → isolation_fault t l destination source protection pending first ≡ none
    unfolding isolation_fault destination_fault first
    isolable_lem p fresh_key =
        rw
          (
            p.has_target, p.exact, p.elsewhere, fresh_key, p.none_pending, p.not_negative,
            p.unprotected, p.enabled, p.busy, p.competing,
          )
          refl

    -- A negative is recommended exactly when the promoted term is an exact one with its destination in
    -- another ad group, no action on it is open, the source has no such negative yet, the term is not
    -- protected, the destination is enabled and has had its traffic, the source still has clicks, and
    -- its source and term are not among those seen before.
    pub decide_isolation-IsIsolable_iff :
        ((decide_isolation t l destination source protection pending seen).0.is_recommended ≡ true)
        ↔ (IsIsolable t l destination source protection pending × (member (key_of l) seen ≡ false))
    unfolding decide_isolation first block_finding
    decide_isolation-IsIsolable_iff = (
      λ e. fault_lem (shown (isolation_finding l destination source) _ e),
      λ (p, q). rw (decide_isolation, isolable_lem p q) refl,
    )
      where
        shown :
            (f : Finding W) (fault : Option BlockedReason)
            → (with_fault f protection fault).is_recommended ≡ true
            → fault ≡ none
        shown f none e = refl
        shown f (some reason) e = cc

  -- A finding that recommends a negative for the key.
  abbrev pub recommends : String → Finding W → Bool
  recommends key f =
      f.is_recommended && str_eq (isolation_key f.campaign_id f.ad_group_id f.term) key

  -- Each key is recommended once.
  abbrev pub IsOnce : List (Finding W) → Type 0
  IsOnce [] = Unit
  IsOnce (f ∷ fs) =
      ((f.is_recommended
          && exists (recommends (isolation_key f.campaign_id f.ad_group_id f.term)) fs)
        ≡ false)
      × IsOnce fs

  key_lem :
      (t : Thresholds W) (l : Lineage) (d : Option (Target W)) (s : SourceUse W)
      (protection pending : Option String) (seen : List String)
      → let f = (decide_isolation t l d s protection pending seen).0 in
        isolation_key f.campaign_id f.ad_group_id f.term ≡ key_of l
  unfolding decide_isolation block_finding
  key_lem t l d s protection pending seen =
      go (isolation_fault t l d s protection pending (not (member (key_of l) seen)))
    where
      go :
          (fault : Option BlockedReason)
          → let f = with_fault (isolation_finding l d s) protection fault in
            isolation_key f.campaign_id f.ad_group_id f.term ≡ key_of l
      go none = refl
      go (some reason) = refl

  module _ (db : Isolating W) (tenant : String) (now : ℕ) (t : Thresholds W) where
    abbrev found : Lineage → List String → Finding W
    found l seen =
        (decide_isolation t l (db.destination_of l) (db.source_of l)
          (protection_of db.protections tenant l.normalized_term now)
          (open_action db.actions tenant "search_term" l.normalized_term
            ("add_negative_exact" ∷ []))
          seen).0

    isolate_step :
        (l : Lineage) (lineages : List Lineage) (seen : List String)
        → isolate db tenant now t (l ∷ lineages) seen
          ≡ found l seen ∷ isolate db tenant now t lineages (with_key (key_of l) seen)
    unfolding isolate
    isolate_step l lineages seen = refl

    isolate_nil : (seen : List String) → isolate db tenant now t [] seen ≡ []
    unfolding isolate
    isolate_nil seen = refl

    unseen_lem :
        (key : String) (l : Lineage) (seen : List String)
        → member key seen ≡ true
        → recommends key (found l seen) ≡ false
    unseen_lem key l seen e =
        let f = found l seen in
        elim (Bool-cases f.is_recommended) [
          | inr held ↦ rw held refl
          | inl yes' ↦
              elim (Bool-cases (str_eq (isolation_key f.campaign_id f.ad_group_id f.term) key)) [
                | inr other ↦ rw (yes', other) refl
                | inl same ↦
                    let fresh_key =
                      ((decide_isolation-IsIsolable_iff t l (db.destination_of l) (db.source_of l) _
                          _ seen).0
                        yes').1 in
                    let k =
                      sym (key_lem t l (db.destination_of l) (db.source_of l) _ _ seen)
                      ∙ (str_eq_iff _ key).0 same in
                    let z : member key seen ≡ false =
                      subst (λ k. member k seen ≡ false) k fresh_key in
                    absurd (cc)
              ]
        ]

    seen_lem :
        (key : String) (lineages : List Lineage) (seen : List String)
        → member key seen ≡ true
        → exists (recommends key) (isolate db tenant now t lineages seen) ≡ false
    seen_lem key [] seen e = rw (isolate_nil seen) refl
    seen_lem key (l ∷ lineages) seen e =
        let rest =
          seen_lem key lineages (with_key (key_of l) seen)
            (member-with_key key (key_of l) seen e) in
        rw (isolate_step l lineages seen) (
          neither key (found l seen) (isolate db tenant now t lineages (with_key (key_of l) seen))
            (unseen_lem key l seen e) rest)
      where
        neither :
            (key : String) (f : Finding W) (fs : List (Finding W))
            → recommends key f ≡ false
            → exists (recommends key) fs ≡ false
            → exists (recommends key) (f ∷ fs) ≡ false
        neither key f fs a b = rw a b

    isolate-IsOnce :
        (lineages : List Lineage) (seen : List String)
        → IsOnce (isolate db tenant now t lineages seen)
    isolate-IsOnce [] seen = rw (isolate_nil seen) tt
    isolate-IsOnce (l ∷ lineages) seen =
        let rest = isolate db tenant now t lineages (with_key (key_of l) seen) in
        rw (isolate_step l lineages seen) (
          no_more (found l seen) rest (
              subst (λ k. exists (recommends k) rest ≡ false)
                (sym (key_lem t l (db.destination_of l) (db.source_of l) _ _ seen))
                (seen_lem (key_of l) lineages (with_key (key_of l) seen)
                  (member-with_key_self (key_of l) seen))),
          isolate-IsOnce lineages (with_key (key_of l) seen),
        )
      where
        no_more :
            (f : Finding W) (fs : List (Finding W))
            → exists (recommends (isolation_key f.campaign_id f.ad_group_id f.term)) fs ≡ false
            → (f.is_recommended
                && exists (recommends (isolation_key f.campaign_id f.ad_group_id f.term)) fs)
              ≡ false
        no_more f fs e = ground (arith, e)

    -- Of the promoted terms of one run, a negative for one source and term is recommended at most
    -- once, whatever order the promotions come in.
    pub isolation_findings-IsOnce :
        (lineages : List Lineage) → IsOnce (isolation_findings db tenant now t lineages)
    unfolding isolation_findings
    isolation_findings-IsOnce lineages = isolate-IsOnce lineages []
