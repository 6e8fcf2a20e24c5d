-- ===== src/Storage/State/Cell.antt =====
-- The store as a cell: what its calls return and store, faults of BEGIN and COMMIT included.
use lucky_tag.Common.{ℕ, ◌≡◌, refl, sym, ap, ◌∙◌, subst, ◌⊎◌, inl, inr, some, false}
use lucky_tag.Contracts.{CoreStateFile}
use lucky_tag.Storage.Database.{Session, Db, transaction, ticked}
use lucky_tag.Storage.Database.Atomic.{RolledBack, transaction-cases}
use lucky_tag.Storage.Outbox.{IsJson}
use lucky_tag.Storage.State.{
  StoreOptions, read_or_initialize, read, write, write_in, update, update_in,
}
use lucky_tag.Storage.State.Refines.{
  Holds, MayFollow, read_or_initialize-Holds, write_in-Holds, update_in-Holds,
}
use lucky_tag.Storage.Table.{IsOrdering}
use lucky_tag.Text.{Text}
use lucky_tag.Worker.Effects.{Result, ok, err}

module _ (o : StoreOptions) where
  open o use {platform, validate}

  abbrev pub CellFault : Text → Type 0
  CellFault e =
      ((n : ℕ) × (platform.begin_fault n ≡ some e)) ⊎ ((n : ℕ) × (platform.commit_fault n ≡ some e))

  -- A call of the cell: it returns and stores `next`, or it fails for BEGIN or COMMIT and the stored
  -- state is the one before.
  pub data Settles (before next : CoreStateFile) : Result CoreStateFile × Session → Type 0 where
    done : {s : Session} → Holds o s next → Settles before next (ok next, s)
    failed :
        {e : Text} {s : Session} → CellFault e → Holds o s before → Settles before next (err e, s)

  Holds-moved :
      {s s' : Session} {state : CoreStateFile}
      → Holds o s state
      → s'.database ≡ s.database
      → s'.closed ≡ false
      → Holds o s' state
  Holds-moved {s} {s'} {state} holds same usable = record {
    usable = usable;
    document = rw same holds.document;
    outbox = rw same holds.outbox;
    distinct = holds.distinct;
    accepted = holds.accepted;
  }

  transaction-Settles :
      (operation : Db CoreStateFile) {s : Session} {before next : CoreStateFile}
      → Holds o s before
      → (operation (ticked s)).0 ≡ ok next
      → Holds o (operation (ticked s)).1 next
      → Settles before next (transaction platform operation s)
  transaction-Settles operation {s} {before} {next} holds ran after =
      elim (transaction-cases platform operation s holds.usable ran) [
        | inl e ↦ rw e (done (Holds-moved after refl after.usable))
        | inr r ↦ settle holds after r
      ]
    where
      settle :
          {s : Session} {closing : Session} {r : Result CoreStateFile × Session}
          → Holds o s before
          → Holds o closing next
          → RolledBack platform (ticked s) closing.closed r
          → Settles before next r
      settle holds after (RolledBack.at_begin n fault same usable) =
          failed (inl (n, fault)) (Holds-moved holds same (usable ∙ holds.usable))
      settle holds after (RolledBack.at_commit n fault same usable) =
          failed (inr (n, fault)) (Holds-moved holds same (usable ∙ after.usable))

  module _ (laws : IsJson platform.json) (ordering : IsOrdering platform.order) {s : Session}
      {before : CoreStateFile} (holds : Holds o s before) where
    Holds-ticked : Holds o (ticked s) before
    Holds-ticked = Holds-moved holds refl holds.usable

    -- An update returns and stores the state that the mutator makes of the stored state, or BEGIN or
    -- COMMIT fails and the stored state stays; this if JSON texts parse back, the order is sorted, and
    -- the new state is valid, has distinct ids and has one id for the records of one message, among
    -- themselves and with the records before.
    pub update-Settles :
        (mutator : CoreStateFile → Result CoreStateFile) {next : CoreStateFile}
        → mutator before ≡ ok next
        → MayFollow o before next
        → Settles before next (update o mutator s)
    unfolding update
    update-Settles mutator gives may =
        let (ran, after) = update_in-Holds o laws ordering mutator Holds-ticked gives may in
        transaction-Settles (update_in o mutator) holds ran after

    -- A write stores its argument in the same way.
    pub write-Settles :
        {next : CoreStateFile} → MayFollow o before next → Settles before next (write o next s)
    unfolding write
    write-Settles {next} may =
        let (ran, after) = write_in-Holds o laws ordering Holds-ticked may in
        rw may.accepted (transaction-Settles (write_in o next) holds ran after)

    -- A read returns the stored state, which stays, or BEGIN or COMMIT fails; this if JSON texts parse
    -- back and the order is sorted.
    pub read-Settles : Settles before before (read o s)
    unfolding read
    read-Settles =
        let loaded = read_or_initialize-Holds o laws ordering Holds-ticked in
        transaction-Settles (read_or_initialize o) holds (ap (λ t. t.0) loaded)
          (subst (λ t. Holds o t.1 before) (sym loaded) Holds-ticked)
