-- ===== src/Storage/Database/Atomic.antt =====
-- What a transaction does to the database.
use lucky_tag.Common.{ℕ, ◌≡◌, refl, ◌⊎◌, inl, inr, Bool, true, false, Option, none, some}
use lucky_tag.Storage.Database.{
  Platform, Session, Db, transaction, ticked, committed, ended, begun, opened,
}
use lucky_tag.Text.{Text}
use lucky_tag.Worker.Effects.{Result, ok, err}

module _ {ℓ} {A : Type ℓ} (p : Platform) where
  database-committed :
      (fault : Option Text) (before : Session) (a : A) (after : Session) {e : Text}
      → (committed p fault before a after).0 ≡ err e
      → (committed p fault before a after).1.database ≡ before.database
  database-committed none before a after h = absurd (cc)
  database-committed (some f) before a after h = refl

  database-ended :
      (before : Session) (r : Result A) (after : Session) {e : Text}
      → (ended p before r after).0 ≡ err e
      → (ended p before r after).1.database ≡ before.database
  database-ended before (ok a) after h =
      database-committed (p.commit_fault after.tick) before a (ticked after) h
  database-ended before (err f) after h = refl

  database-begun :
      (fault : Option Text) (operation : Db A) (s : Session) {e : Text}
      → (begun p fault operation s).0 ≡ err e
      → (begun p fault operation s).1.database ≡ s.database
  database-begun none operation s h = database-ended s (operation s).0 (operation s).1 h
  database-begun (some f) operation s h = refl

  database-opened :
      (closed : Bool) (operation : Db A) (s : Session) {e : Text}
      → (opened p closed operation s).0 ≡ err e
      → (opened p closed operation s).1.database ≡ s.database
  database-opened true operation s h = refl
  database-opened false operation s h = database-begun (p.begin_fault s.tick) operation (ticked s) h

  -- A transaction that returns an error leaves the database as it was, whichever step failed: a closed
  -- connection, BEGIN, the operation after any writes, or COMMIT.
  pub database-transaction :
      (operation : Db A) (s : Session) {e : Text}
      → (transaction p operation s).0 ≡ err e
      → (transaction p operation s).1.database ≡ s.database
  unfolding transaction
  database-transaction operation s h = database-opened s.closed operation s h

  -- BEGIN or COMMIT failed: the error is theirs and the database is as it was.
  pub data RolledBack (before : Session) (closed : Bool) : Result A × Session → Type ℓ where
    at_begin :
        (n : ℕ) {e : Text} {s : Session}
        → p.begin_fault n ≡ some e
        → s.database ≡ before.database
        → s.closed ≡ before.closed
        → RolledBack before closed (err e, s)
    at_commit :
        (n : ℕ) {e : Text} {s : Session}
        → p.commit_fault n ≡ some e
        → s.database ≡ before.database
        → s.closed ≡ closed
        → RolledBack before closed (err e, s)

  committed-cases :
      (fault : Option Text) (before : Session) (a : A) (after : Session) (n : ℕ)
      → p.commit_fault n ≡ fault
      → (committed p fault before a after ≡ (ok a, after))
        ⊎ RolledBack before after.closed (committed p fault before a after)
  committed-cases none before a after n e = inl refl
  committed-cases (some f) before a after n e = inr (at_commit n e refl refl)

  ended-cases :
      (before : Session) (r : Result A) (after : Session) {a : A}
      → r ≡ ok a
      → (ended p before r after ≡ (ok a, ticked after))
        ⊎ RolledBack before after.closed (ended p before r after)
  ended-cases before (ok b) after {a} e =
      let same : b ≡ a = cc in
      rw (← same)
        (committed-cases (p.commit_fault after.tick) before b (ticked after) after.tick refl)
  ended-cases before (err f) after e = absurd (cc)

  begun-cases :
      (fault : Option Text) (operation : Db A) (s : Session) (n : ℕ) {a : A}
      → p.begin_fault n ≡ fault
      → (operation s).0 ≡ ok a
      → (begun p fault operation s ≡ (ok a, ticked (operation s).1))
        ⊎ RolledBack s (operation s).1.closed (begun p fault operation s)
  begun-cases none operation s n e done = ended-cases s (operation s).0 (operation s).1 done
  begun-cases (some f) operation s n e done = inr (at_begin n e refl refl)

  opened-cases :
      (closed : Bool) (operation : Db A) (s : Session) {a : A}
      → closed ≡ false
      → (operation (ticked s)).0 ≡ ok a
      → (opened p closed operation s ≡ (ok a, ticked (operation (ticked s)).1))
        ⊎ RolledBack (ticked s) (operation (ticked s)).1.closed (opened p closed operation s)
  opened-cases true operation s usable done = absurd (cc)
  opened-cases false operation s usable done =
      begun-cases (p.begin_fault s.tick) operation (ticked s) s.tick refl done

  -- The transaction returns what the operation returned and keeps what it wrote, or BEGIN or COMMIT
  -- failed and the database is as it was.
  pub transaction-cases :
      (operation : Db A) (s : Session) {a : A}
      → s.closed ≡ false
      → (operation (ticked s)).0 ≡ ok a
      → (transaction p operation s ≡ (ok a, ticked (operation (ticked s)).1))
        ⊎ RolledBack (ticked s) (operation (ticked s)).1.closed (transaction p operation s)
  unfolding transaction
  transaction-cases operation s usable done = opened-cases s.closed operation s usable done
