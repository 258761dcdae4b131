-- ===== src/Middleware/Idempotency.antt =====
-- fastapi_viewsets/middleware/idempotency.py without Redis: the records of an instance, the calls it
-- runs, and what each call of `__call__` does between two suspensions. Times are whole numbers of a
-- common unit. `O` is the type of outcomes. A `_Run` object is told apart by its `owner`, a fresh UUID.
pub mod Pinned
pub mod Replays
pub mod Runs
pub mod Header
pub mod Locks
pub mod Claims
pub mod Endings
pub mod Examples
use fastapi_viewsets.Prelude.{
  ℕ, ◌+◌, min, Text, Dict, lookup, insert, erase, select, list_eq, nat_eq, ◌==◌, ltb, nat_beq,
  if◌then◌else◌, List, [], ◌∷◌, Option, none, some, Bool, true, false, ◌&&◌, ◌||◌, not,
}

-- `_Record`
pub record KeyRecord (O : Type 0) : Type 0 where
  pub fingerprint : Text
  pub owner : Option ℕ
  pub outcome : Option O
  pub expires_at : ℕ

-- `_Run`
pub record Run : Type 0 where
  pub owner : ℕ
  pub attached : Bool

-- `Idempotency`, and the next `uuid.uuid4()`
pub record Idempotency (O : Type 0) : Type 0 where
  pub records : Dict Text (KeyRecord O)
  pub runs : Dict Text Run
  pub next_prune : ℕ
  pub next_owner : ℕ

-- `settings.viewsets_idempotency_ttl` and `viewsets_idempotency_lock_ttl`
pub record Ttls : Type 0 where
  pub ttl : ℕ
  pub lock_ttl : ℕ

-- the `mode` of `_finish`
pub data Mode : Type 0 where
  never attached always : Mode

-- What `_claim_in_memory` answers: the run that now owns the key, or the key's live record.
pub data Claimed (O : Type 0) : Type 0 where
  claimed : Run → Claimed O
  found : KeyRecord O → Claimed O

abbrev pub new_run : ℕ → Run
new_run owner = record { owner = owner; attached = false }

-- What a call comes to at its claim: it runs, waits for the running call, claims again, is refused
-- with `IdempotencyKeyReusedError`, or replays an outcome.
pub data Begun (O : Type 0) : Type 0 where
  runs : Run → Begun O
  waits again key_reused : Begun O
  replays : O → Begun O

abbrev pub stores : Mode → Bool → Bool
stores always attached_ = true
stores attached attached_ = attached_
stores never attached_ = false

abbrev pub is_run : Run → Option Run → Bool
is_run run none = false
is_run run (some held) = nat_beq held.owner run.owner

abbrev pub is_owner : ℕ → Option ℕ → Bool
is_owner owner none = false
is_owner owner (some o) = nat_beq o owner

module _ {O : Type 0} where
  abbrev pub is_live : ℕ → KeyRecord O → Bool
  is_live now record_ = ltb now record_.expires_at

  -- `_prune`
  unfoldable pub prune_records : Ttls → ℕ → Idempotency O → Idempotency O
  unfolding select
  prune_records ttls now s = if ltb now s.next_prune then s else record s {
    records = select (is_live now) s.records;
    next_prune = now + min ttls.ttl ttls.lock_ttl;
  }

  abbrev pub running : Ttls → ℕ → Text → ℕ → KeyRecord O
  running ttls now fingerprint owner = record {
    fingerprint = fingerprint;
    owner = some owner;
    outcome = none;
    expires_at = now + ttls.lock_ttl;
  }

  abbrev pub take_key : Ttls → ℕ → Text → Text → Idempotency O → Idempotency O × Claimed O
  take_key ttls now key fingerprint s = (
    record s {
      records = insert key (running ttls now fingerprint s.next_owner) s.records;
      runs = insert key (new_run s.next_owner) s.runs;
      next_owner = s.next_owner + 1;
    },
    claimed (new_run s.next_owner),
  )

  abbrev pub claim_at :
      Option (KeyRecord O) → Ttls → ℕ → Text → Text → Idempotency O → Idempotency O × Claimed O
  claim_at none ttls now key fingerprint s = take_key ttls now key fingerprint s
  claim_at (some record_) ttls now key fingerprint s =
      if is_live now record_ then (s, found record_) else take_key ttls now key fingerprint s

  -- `_claim_in_memory`
  unfoldable pub claim_in_memory :
      Ttls → ℕ → Text → Text → Idempotency O → Idempotency O × Claimed O
  unfolding prune_records
  claim_in_memory ttls now key fingerprint s =
      let pruned = prune_records ttls now s in
      claim_at (lookup key pruned.records) ttls now key fingerprint pruned

  -- `_attach` up to its wait: the running call is marked, or a record without one is removed
  abbrev pub attach_at : Option Run → Text → Idempotency O → Idempotency O × Begun O
  attach_at none key s = (record s { records = erase key s.records }, again)
  attach_at (some run) key s =
      (record s { runs = insert key (record run { attached = true }) s.runs }, waits)

  -- the live record of the same request: its outcome, or the running call
  abbrev pub answer_same : Option O → Text → Idempotency O → Idempotency O × Begun O
  answer_same none key s = attach_at (lookup key s.runs) key s
  answer_same (some outcome) key s = (s, replays outcome)

  abbrev pub answer_found : Text → Text → KeyRecord O → Idempotency O → Idempotency O × Begun O
  answer_found key fingerprint record_ s =
      if record_.fingerprint == fingerprint
      then answer_same record_.outcome key s
      else (s, key_reused)

  abbrev pub begun : Text → Text → Idempotency O × Claimed O → Idempotency O × Begun O
  begun key fingerprint (s, claimed run) = (s, runs run)
  begun key fingerprint (s, found record_) = answer_found key fingerprint record_ s

  -- one round of the loop of `__call__`
  unfoldable pub begin : Ttls → ℕ → Text → Text → Idempotency O → Idempotency O × Begun O
  unfolding claim_in_memory
  begin ttls now key fingerprint s =
      begun key fingerprint (claim_in_memory ttls now key fingerprint s)

  abbrev pub owned_by : ℕ → Option (KeyRecord O) → Bool
  owned_by owner none = false
  owned_by owner (some record_) = is_owner owner record_.owner

  abbrev pub renewed_at : Option (KeyRecord O) → ℕ → Text → Idempotency O → Idempotency O
  renewed_at none expires_at key s = s
  renewed_at (some record_) expires_at key s = record s {
    records = insert key (record record_ { expires_at = expires_at }) s.records;
  }

  -- `_renew_in_memory`
  unfoldable pub renew_in_memory : Ttls → ℕ → Text → Run → Idempotency O → Idempotency O × Bool
  renew_in_memory ttls now key run s =
      if owned_by run.owner (lookup key s.records)
      then (renewed_at (lookup key s.records) (now + ttls.lock_ttl) key s, true)
      else (s, false)

  abbrev pub finished_at :
      Option (KeyRecord O) → Ttls → ℕ → Text → Run → Option O → Mode → Idempotency O → Idempotency O
  finished_at none ttls now key run outcome mode s = s
  finished_at (some record_) ttls now key run outcome mode s =
      if stores mode run.attached
      then record s {
        records =
            insert key
              (record {
                fingerprint = record_.fingerprint;
                owner = none;
                outcome = outcome;
                expires_at = now + ttls.ttl;
              })
              s.records;
      }
      else record s { records = erase key s.records }

  -- `_finish_in_memory`
  unfoldable pub finish_in_memory :
      Ttls → ℕ → Text → Run → Option O → Mode → Idempotency O → Idempotency O
  finish_in_memory ttls now key run outcome mode s =
      if owned_by run.owner (lookup key s.records)
      then finished_at (lookup key s.records) ttls now key run outcome mode s
      else s

  -- the mode and the outcome that `_finish` records: `keeps` is false of an outcome that sets a cookie
  -- or is not storable, `safe` of a method other than GET and HEAD
  unfoldable pub recorded : (O → Bool) → Bool → Option O → Mode × Option O
  recorded keeps safe none = (never, none)
  recorded keeps safe (some outcome) =
      if keeps outcome then ((if safe then attached else always), some outcome) else (never, none)

  -- `if self._runs.get(storage_key) is run: del self._runs[storage_key]`
  unfoldable pub forget_run : Text → Run → Idempotency O → Idempotency O
  forget_run key run s =
      if is_run run (lookup key s.runs) then record s { runs = erase key s.runs } else s

  -- `_finish`; the waiting calls of this process are then answered or claim again
  unfoldable pub finish :
      (O → Bool) → Ttls → ℕ → Text → Run → Option O → Bool → Idempotency O → Idempotency O
  unfolding finish_in_memory recorded forget_run
  finish keeps ttls now key run outcome safe s =
      let what = recorded keeps safe outcome in
      forget_run key run (finish_in_memory ttls now key run what.1 what.0 s)
