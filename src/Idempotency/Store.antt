-- ===== src/Idempotency/Store.antt =====
-- internal/idempotency/adapters/redis/store.go: records under Redis keys. Keys that expire, and the
-- writes of other clients, are signals of the script.
use banking_plateform.Base.{
  ℕ, Bool, true, false, [], ◌∷◌, ◌++◌, Str, text, str_eq, if◌then◌else◌, Option, none, some,
}
use banking_plateform.Shared.Errors.{Result, ok, err, domain, not_found}
use banking_plateform.Shared.Json.{malformed}
use banking_plateform.Idempotency.Record.{Record, processing, completed, failed, Outcome}
use banking_plateform.Storage.{Cache}
use banking_plateform.Storage.Monad.{M, pure, lift, gets, call_annotated, ◌>>=◌, ◌>>◌}

-- `redisKey`
unfoldable pub redis_key : Str → Str → Str
redis_key scope key = text "idempotency:" ++ (scope ++ (text ":" ++ key))

unfoldable pub cached : Str → Cache → Option Record
cached k [] = none
cached k ((j, r) ∷ c) = if str_eq j k then some r else cached k c

-- `SET`
unfoldable pub put : Str → Record → Cache → Cache
put k r [] = (k, r) ∷ []
put k r ((j, s) ∷ c) = if str_eq j k then (j, r) ∷ c else (j, s) ∷ put k r c

-- `DEL`
unfoldable pub remove : Str → Cache → Cache
remove k [] = []
remove k ((j, s) ∷ c) = let rest = remove k c in if str_eq j k then rest else (j, s) ∷ rest

abbrev pub modify_cache : (Cache → Cache) → M (Unit {0})
modify_cache f w = (ok tt, record w { cache = f w.cache })

abbrev pub found_record : Option Record → Result Record
found_record none = err (domain not_found)
found_record (some r) = ok r

module _ (scope key : Str) where
  unfoldable pub get : M Record
  get = do
    call_annotated
    r ← gets (λ w. cached (redis_key scope key) w.cache)
    lift (found_record r)

  abbrev pub fresh : Str → ℕ → Record
  fresh fingerprint now = record {
    scope = scope;
    key = key;
    status = processing;
    fingerprint = fingerprint;
    resource_id = [];
    payload = malformed [];
    created_at = now;
    completed_at = 0;
  }

  -- `SETNX`
  abbrev pub set_new : Record → Option Record → M Bool
  set_new r (some _) = pure false
  set_new r none = modify_cache (put (redis_key scope key) r) >> pure true

  unfoldable pub try_acquire : Str → M Bool
  try_acquire fingerprint = do
    call_annotated
    now ← gets (λ w. w.now)
    old ← gets (λ w. cached (redis_key scope key) w.cache)
    set_new (fresh fingerprint now) old

  abbrev pub completed_record : Record → Outcome → ℕ → Record
  completed_record r o now = record r {
    status = completed;
    resource_id = o.resource_id;
    payload = o.payload;
    completed_at = now;
  }

  unfoldable pub complete : Outcome → M (Unit {0})
  complete result = do
    existing ← get
    now ← gets (λ w. w.now)
    call_annotated
    modify_cache (put (redis_key scope key) (completed_record existing result now))

  unfoldable pub fail : M (Unit {0})
  fail = do
    existing ← get
    call_annotated
    modify_cache (put (redis_key scope key) (record existing { status = failed }))

  unfoldable pub delete : M (Unit {0})
  delete = do call_annotated; modify_cache (remove (redis_key scope key))
