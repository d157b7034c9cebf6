-- ===== src/Jobs/Broker.antt =====
-- The broker (Redis or Valkey) as the queue uses it: sorted sets of job names with scores, one hash
-- for each job, one stream of results for each job, and times to live on these keys. The broker is
-- not part of the repository: its commands are operations of this record, and its documented
-- behaviour, with no time passing between two commands, is the record's laws.
use daily_scheduler.Base.{
  String, ◌≡◌, Bool, ◌&&◌, Option, none, some, str_eq, ◌==◌, List, Memᴰ, head?, ◌↔◌, if◌then◌else◌,
}
use daily_scheduler.Base.Int.{ℤ, ◌≤ℤ◌, leb_ℤ}
use daily_scheduler.Jobs.Model.{JobModel, JobResult, Registry, registry_number}

-- Whether two entries of the sorted sets are the same: one queue, one registry, one job name.
abbrev pub same_entry : String → Registry → String → String → Registry → String → Bool
same_entry q r n q' r' n' = str_eq q q' && (registry_number r == registry_number r' && str_eq n n')

-- A key whose time to live is set: the hash of a job or its stream of results.
pub data TtlKey : Type 0 where
  job_key result_key : String → TtlKey

-- The score of an entry, gone if it lies in a range.
abbrev pub drop_between : ℤ → ℤ → Option ℤ → Option ℤ
drop_between lo hi none = none
drop_between lo hi (some s) = if leb_ℤ lo s && leb_ℤ s hi then none else some s

pub record Broker : Type 1 where
  pub Conn : Type 0
  -- What can be read: ZSCORE, HGETALL, XREVRANGE with a count of 1, ZRANGE key -1 -1, and
  -- ZRANGE key 0 -1 WITHSCORES, the lowest score first.
  pub zscore : String → Registry → String → Conn → Option ℤ
  pub hgetall : String → Conn → Option JobModel
  pub latest_result : String → Conn → Option JobResult
  pub last_score : String → Registry → Conn → Option ℤ
  pub entries : String → Registry → Conn → List (String × ℤ)
  -- ZADD, ZREM, ZREMRANGEBYSCORE, HSET, DEL of a job, XADD, DEL of a stream, EXPIRE or PERSIST.
  pub zadd : String → Registry → String → ℤ → Conn → Conn
  pub zrem : String → Registry → String → Conn → Conn
  pub zremrangebyscore : String → Registry → ℤ → ℤ → Conn → Conn
  pub hset : JobModel → Conn → Conn
  pub del_job : String → Conn → Conn
  pub xadd : JobResult → Conn → Conn
  pub del_results : String → Conn → Conn
  pub set_ttl : TtlKey → Option ℤ → Conn → Conn
  pub zscore-zadd :
      (q : String) (r : Registry) (n q' : String) (r' : Registry) (n' : String) (s : ℤ) (c : Conn)
      → zscore q' r' n' (zadd q r n s c)
        ≡ (if same_entry q r n q' r' n' then some s else zscore q' r' n' c)
  pub zscore-zrem :
      (q : String) (r : Registry) (n q' : String) (r' : Registry) (n' : String) (c : Conn)
      → zscore q' r' n' (zrem q r n c)
        ≡ (if same_entry q r n q' r' n' then none else zscore q' r' n' c)
  pub zscore-zremrangebyscore :
      (q : String) (r : Registry) (lo hi : ℤ) (q' : String) (r' : Registry) (n' : String) (c : Conn)
      → zscore q' r' n' (zremrangebyscore q r lo hi c) ≡ (
          if str_eq q q' && registry_number r == registry_number r'
          then drop_between lo hi (zscore q' r' n' c)
          else zscore q' r' n' c)
  pub zscore-hset :
      (q : String) (r : Registry) (n : String) (j : JobModel) (c : Conn)
      → zscore q r n (hset j c) ≡ zscore q r n c
  pub zscore-del_job :
      (q : String) (r : Registry) (n m : String) (c : Conn)
      → zscore q r n (del_job m c) ≡ zscore q r n c
  pub zscore-xadd :
      (q : String) (r : Registry) (n : String) (x : JobResult) (c : Conn)
      → zscore q r n (xadd x c) ≡ zscore q r n c
  pub zscore-del_results :
      (q : String) (r : Registry) (n m : String) (c : Conn)
      → zscore q r n (del_results m c) ≡ zscore q r n c
  pub zscore-set_ttl :
      (q : String) (r : Registry) (n : String) (k : TtlKey) (t : Option ℤ) (c : Conn)
      → zscore q r n (set_ttl k t c) ≡ zscore q r n c
  pub hgetall-zadd :
      (q : String) (r : Registry) (n m : String) (s : ℤ) (c : Conn)
      → hgetall m (zadd q r n s c) ≡ hgetall m c
  pub hgetall-zrem :
      (q : String) (r : Registry) (n m : String) (c : Conn) → hgetall m (zrem q r n c) ≡ hgetall m c
  pub hgetall-zremrangebyscore :
      (q : String) (r : Registry) (m : String) (lo hi : ℤ) (c : Conn)
      → hgetall m (zremrangebyscore q r lo hi c) ≡ hgetall m c
  pub hgetall-hset :
      (m : String) (j : JobModel) (c : Conn)
      → hgetall m (hset j c) ≡ (if str_eq j.name m then some j else hgetall m c)
  pub hgetall-del_job :
      (n m : String) (c : Conn)
      → hgetall m (del_job n c) ≡ (if str_eq n m then none else hgetall m c)
  pub hgetall-xadd : (m : String) (x : JobResult) (c : Conn) → hgetall m (xadd x c) ≡ hgetall m c
  pub hgetall-del_results : (n m : String) (c : Conn) → hgetall m (del_results n c) ≡ hgetall m c
  pub hgetall-set_ttl :
      (m : String) (k : TtlKey) (t : Option ℤ) (c : Conn) → hgetall m (set_ttl k t c) ≡ hgetall m c
  pub last_score_max :
      (q : String) (r : Registry) (n : String) (s t : ℤ) (c : Conn)
      → last_score q r c ≡ some t
      → zscore q r n c ≡ some s
      → s ≤ℤ t
  pub last_score_none :
      (q : String) (r : Registry) (n : String) (c : Conn)
      → last_score q r c ≡ none
      → zscore q r n c ≡ none
  pub entries_iff :
      (q : String) (r : Registry) (n : String) (s : ℤ) (c : Conn)
      → Memᴰ (n, s) (entries q r c) ↔ (zscore q r n c ≡ some s)
  pub entries_lowest :
      (q : String) (r : Registry) (n : String) (s : ℤ) (n' : String) (s' : ℤ) (c : Conn)
      → head? (entries q r c) ≡ some (n, s)
      → zscore q r n' c ≡ some s'
      → s ≤ℤ s'
  pub latest_result-xadd :
      (m : String) (x : JobResult) (c : Conn)
      → latest_result m (xadd x c) ≡ (if str_eq x.parent m then some x else latest_result m c)
  pub latest_result-del_results :
      (n m : String) (c : Conn)
      → latest_result m (del_results n c) ≡ (if str_eq n m then none else latest_result m c)
  pub latest_result-set_ttl :
      (m : String) (k : TtlKey) (t : Option ℤ) (c : Conn)
      → latest_result m (set_ttl k t c) ≡ latest_result m c
