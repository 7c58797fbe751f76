-- ===== src/BlockProcessing/Slashings/Accepted.antt =====
-- Which proposer slashings `process_proposer_slashing` accepts.
use ethereum_consensus.Prelude.{
  ℕ, ◌≡◌, ◌≢◌, ◌∙◌, refl, sym, Bool, true, false, not, Option, none, some, get_elem?, arith, ◌==◌,
  ==_refl, not-eq-false,
}
use ethereum_consensus.Prelude.Bytes.{bytes_eq_refl}
use ethereum_consensus.Types.{
  Epoch, Domain, Root, Validator, BeaconBlockHeader, SignedBeaconBlockHeader, ProposerSlashing,
  BeaconState, header_eq, beacon_proposer,
}
use ethereum_consensus.Errors.{Error}
use ethereum_consensus.Outcome.{Outcome, ok, err, fault, ok_or}
use ethereum_consensus.Action.{read->>=-eq-ok, lift->>=-eq-ok, guard_not->>-eq-ok, guard_not-eq-ok}
use ethereum_consensus.Action.Atomic.{IsQuiet, atomic_rules, quiet->>=-eq-ok}
use ethereum_consensus.Env.{Env, header_object}
use ethereum_consensus.Helpers.Predicates.{is_slashable_validator}
use ethereum_consensus.Helpers.Epochs.{compute_epoch_at_slot, get_current_epoch}
use ethereum_consensus.Helpers.Domains.{get_domain, compute_signing_root}
use ethereum_consensus.Helpers.Exits.{slash_validator}
use ethereum_consensus.BlockProcessing.Randao.{is_err}
use ethereum_consensus.BlockProcessing.Slashings.{verify_header, process_proposer_slashing}

header_eq_refl : (a : BeaconBlockHeader) → header_eq a a ≡ true
unfolding header_eq
header_eq_refl a =
    rw
      (
        ==_refl a.slot,
        ==_refl a.proposer_index,
        bytes_eq_refl a.parent_root,
        bytes_eq_refl a.state_root,
      )
      (bytes_eq_refl a.body_root)

headers_differ : (a b : BeaconBlockHeader) → header_eq a b ≡ false → a ≢ b
headers_differ a b h same = let clash : true ≡ false = sym (rw same (header_eq_refl b)) ∙ h in cc

is_err-eq-false : (r : Outcome (Unit {0})) {b : Bool} → is_err r ≡ ok b → b ≡ false → r ≡ ok tt
unfolding is_err
is_err-eq-false (ok u) h e = refl
is_err-eq-false (err x) h e = cc
is_err-eq-false (fault x) h e = cc

ok_or-eq-ok : (o : Option Validator) (e : Error) {v : Validator} → ok_or o e ≡ ok v → o ≡ some v
ok_or-eq-ok none e h = cc
ok_or-eq-ok (some v) e h = cc

module _ (env : Env) where
  -- The signature of a header is valid for a validator and a domain.
  abbrev pub SignedBy : Validator → Domain → SignedBeaconBlockHeader → Type 0
  SignedBy v domain h =
      (root : Root) × (compute_signing_root env (header_object h.message) domain ≡ ok root)
      × (env.externals.verify_signature v.public_key root h.signature ≡ ok tt)

  verify_header-IsQuiet :
      (v : Validator) (domain : Domain) (h : SignedBeaconBlockHeader)
      → IsQuiet (verify_header env v domain h)
  unfolding verify_header
  verify_header-IsQuiet v domain h = search atomic_rules depth 8

  verify_header-SignedBy :
      (v : Validator) (domain : Domain) (h : SignedBeaconBlockHeader) (s : BeaconState)
      → (verify_header env v domain h s).0 ≡ ok tt
      → SignedBy v domain h
  unfolding verify_header
  verify_header-SignedBy v domain h s r =
      let e : verify_header env v domain h s ≡ (ok tt, (verify_header env v domain h s).1) =
        λ i. (r i, (verify_header env v domain h s).1) in
      let (root, root_is, e₁) = lift->>=-eq-ok _ _ s e in
      let (bad, bad_is, e₂) = lift->>=-eq-ok _ _ s e₁ in
      let (good, _) = guard_not-eq-ok _ _ e₂ in (root, root_is, is_err-eq-false _ bad_is good)

  -- What holds when a proposer slashing has taken a state to another.
  abbrev pub ProposerSlashed : ProposerSlashing → BeaconState → BeaconState → Type 0
  ProposerSlashed op s s' =
      (op.signed_header_1.message.slot ≡ op.signed_header_2.message.slot)
      × (op.signed_header_1.message.proposer_index ≡ op.signed_header_2.message.proposer_index)
      × (op.signed_header_1.message ≢ op.signed_header_2.message)
      × (v : Validator) × (current epoch : Epoch) × (domain : Domain) × (get_elem? s.validators
            op.signed_header_1.message.proposer_index
          ≡ some v)
      × (get_current_epoch env s ≡ ok current)
      × (is_slashable_validator v current ≡ true)
      × (compute_epoch_at_slot env op.signed_header_1.message.slot ≡ ok epoch)
      × (get_domain env beacon_proposer (some epoch) s ≡ ok domain)
      × SignedBy v domain op.signed_header_1
      × SignedBy v domain op.signed_header_2
      × (slash_validator env op.signed_header_1.message.proposer_index none s ≡ (ok tt, s'))

  same_number : (a b : ℕ) → not (a == b) ≡ false → a ≡ b
  same_number a b h = ground arith

  -- If a proposer slashing is accepted, its two headers are different headers for one slot and one
  -- proposer, who is a slashable validator of the registry and has signed both, and what was done is
  -- to slash that validator.
  pub process_proposer_slashing-accepted :
      (op : ProposerSlashing) (s s' : BeaconState)
      → process_proposer_slashing env op s ≡ (ok tt, s')
      → ProposerSlashed op s s'
  unfolding process_proposer_slashing
  process_proposer_slashing-accepted op s s' e =
      let (slots, e₁) = guard_not->>-eq-ok _ _ _ s e in
      let (proposers, e₂) = guard_not->>-eq-ok _ _ _ s e₁ in
      let (differ, e₃) = guard_not->>-eq-ok _ _ _ s e₂ in
      let (v, found, e₄) = read->>=-eq-ok _ _ s e₃ in
      let (current, current_is, e₅) = read->>=-eq-ok _ _ s e₄ in
      let (slashable, e₆) = guard_not->>-eq-ok _ _ _ s e₅ in
      let (epoch, epoch_is, e₇) = lift->>=-eq-ok _ _ s e₆ in
      let (domain, domain_is, e₈) = read->>=-eq-ok _ _ s e₇ in
      let (_, signed_1, e₉) = quiet->>=-eq-ok _ _ s (verify_header-IsQuiet v domain _) e₈ in
      let (_, signed_2, e₁₀) = quiet->>=-eq-ok _ _ s (verify_header-IsQuiet v domain _) e₉ in
      (
        same_number _ _ slots,
        same_number _ _ proposers,
        headers_differ _ _ differ,
        v,
        current,
        epoch,
        domain,
        ok_or-eq-ok _ _ found,
        current_is,
        not-eq-false _ slashable,
        epoch_is,
        domain_is,
        verify_header-SignedBy v domain _ s signed_1,
        verify_header-SignedBy v domain _ s signed_2,
        e₁₀,
      )
