-- ===== src/Scheduler/Accounts.antt =====
-- omkit/scheduler/scheduler.py: what is assumed of the backend, and the invariant that joins its
-- registrations to the entries.
use omkit_python.Prelude.{
  ℕ, ◌+◌, ◌<◌, ◌≡◌, true, false, none, some, arith, if◌then◌else◌, ◌==◌, ==-refl,
}
use omkit_python.Prelude.Text.{Text, Bytes, text_eq}
use omkit_python.Prelude.Dict.{Dict, lookup, insert, erase}
use omkit_python.Prelude.Unique.{
  IsUnique, insert-IsUnique, erase-IsUnique, tally, tally-erase, tally-insert,
}
use omkit_python.Json.{Fields}
use omkit_python.Scheduler.{Entry, Services, Setup}

abbrev pub one : Text → Text → ℕ
one i j = if i == j then 1 else 0

-- What is assumed of the services: a call that raises registers and removes nothing, and one that
-- returns does what it is for. `live w i` is how many registrations have the id `i`.
pub record Accounts {W : Type 0} (s : Services W) : Type 0 where
  pub live : W → Text → ℕ
  pub fetch_keeps : (kind i : Text) (w : W) → live (s.fetch_providers kind w).1 i ≡ live w i
  pub enqueue_keeps :
      (t tenant queue i : Text) (p : Fields) (w : W)
      → live (s.enqueue t tenant p queue w).1 i ≡ live w i
  pub register_adds :
      (cron t : Text) (body : Bytes) (queue i j : Text) (w : W)
      → (s.register cron t body queue w).0 ≡ some i
      → live (s.register cron t body queue w).1 j ≡ one i j + live w j
  pub register_fails :
      (cron t : Text) (body : Bytes) (queue j : Text) (w : W)
      → (s.register cron t body queue w).0 ≡ none
      → live (s.register cron t body queue w).1 j ≡ live w j
  pub unregister_removes :
      (i j : Text) (w : W)
      → (s.unregister i w).0 ≡ true
      → 0 < live w i
      → live w j ≡ one i j + live (s.unregister i w).1 j
  pub unregister_fails :
      (i j : Text) (w : W) → (s.unregister i w).0 ≡ false → live (s.unregister i w).1 j ≡ live w j

abbrev pub has_id : Text → Entry → ℕ
has_id j e = one e.entry_id j

module _ {W : Type 0} (s : Services W) (u : Setup) (a : Accounts s) where
  -- No key has two entries, and the backend's registrations are those of the entries, each once.
  pub record IsRegistered (st : Dict Text Entry × W) : Type 0 where
    pub unique : IsUnique st.0
    pub balanced : (j : Text) → a.live st.1 j ≡ tally (has_id j) st.0

  pub drop-IsRegistered :
      (k : Text) (e : Entry) (d : Dict Text Entry) (w : W)
      → IsRegistered (d, w)
      → lookup k d ≡ some e
      → (s.unregister e.entry_id w).0 ≡ true
      → IsRegistered (erase k d, (s.unregister e.entry_id w).1)
  drop-IsRegistered k e d w r h done = record {
    unique = erase-IsUnique k d r.unique;
    balanced = λ j. omega (
      arith,
      a.unregister_removes e.entry_id j w done (
          omega (
            arith,
            r.balanced e.entry_id,
            tally-erase (has_id e.entry_id) k e d r.unique h,
            present,
          )),
      r.balanced j,
      tally-erase (has_id j) k e d r.unique h,
    );
  }
    where
      present : one e.entry_id e.entry_id ≡ 1
      present = rw (==-refl e.entry_id)

  pub same-IsRegistered :
      (d : Dict Text Entry) (w w' : W)
      → IsRegistered (d, w)
      → ((j : Text) → a.live w' j ≡ a.live w j)
      → IsRegistered (d, w')
  same-IsRegistered d w w' r h = record {
    unique = r.unique;
    balanced = λ j. omega (arith, h j, r.balanced j);
  }

  pub add-IsRegistered :
      (k : Text) (e : Entry) (d : Dict Text Entry) (w w' : W)
      → IsRegistered (d, w)
      → lookup k d ≡ none
      → ((j : Text) → a.live w' j ≡ one e.entry_id j + a.live w j)
      → IsRegistered (insert k e d, w')
  add-IsRegistered k e d w w' r h added = record {
    unique = insert-IsUnique k e d r.unique;
    balanced = λ j. omega (arith, added j, r.balanced j, tally-insert (has_id j) k e d h);
  }
