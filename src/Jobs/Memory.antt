-- ===== src/Jobs/Memory.antt =====
-- A broker that keeps everything in lists. It satisfies the laws of `Broker`, and the examples run
-- on it. Times to live are not kept, since no command reads them.
use daily_scheduler.Base.{refl, str_eq, ◌∷◌}
use daily_scheduler.Jobs.Broker.{Broker}
use daily_scheduler.Jobs.Store.{
  Store, find_first, find_score, without, is_dropped, top_score, find_first-cons, find_score-cons,
  find_score-without, find_job-without, find_result-without, top_score-none, top_score_max,
}
use daily_scheduler.Jobs.Store.Listing.{listed, listed_iff, listed_lowest}
use daily_scheduler.Jobs.Store.Ranges.{is_in_range, find_score-drop_range}

abbrev pub memory : Broker
memory = record {
  Conn = Store;
  zscore = λ q r n c. find_score q r n c.entries;
  hgetall = λ n c. find_first (λ j. str_eq j.name n) c.hashes;
  latest_result = λ n c. find_first (λ x. str_eq x.parent n) c.streams;
  last_score = λ q r c. top_score q r c.entries;
  entries = λ q r c. listed q r c.entries c.entries;
  zadd = λ q r n s c. record c {
    entries = record { queue = q; registry = r; name = n; score = s } ∷ c.entries;
  };
  zrem = λ q r n c. record c { entries = without (is_dropped q r n) c.entries };
  zremrangebyscore =
      λ q r lo hi c. record c { entries = without (is_in_range q r lo hi c.entries) c.entries };
  hset = λ j c. record c { hashes = j ∷ c.hashes };
  del_job = λ n c. record c { hashes = without (λ j. str_eq n j.name) c.hashes };
  xadd = λ x c. record c { streams = x ∷ c.streams };
  del_results = λ n c. record c { streams = without (λ x. str_eq n x.parent) c.streams };
  set_ttl = λ k t c. c;
  zscore-zadd = λ q r n q' r' n' s c. find_score-cons q r n q' r' n' s c.entries;
  zscore-zrem = λ q r n q' r' n' c. find_score-without q r n q' r' n' c.entries;
  zscore-zremrangebyscore =
      λ q r lo hi q' r' n' c. find_score-drop_range q r lo hi q' r' n' c.entries;
  zscore-hset = λ q r n j c. refl;
  zscore-del_job = λ q r n m c. refl;
  zscore-xadd = λ q r n x c. refl;
  zscore-del_results = λ q r n m c. refl;
  zscore-set_ttl = λ q r n k t c. refl;
  hgetall-zadd = λ q r n m s c. refl;
  hgetall-zrem = λ q r n m c. refl;
  hgetall-zremrangebyscore = λ q r m lo hi c. refl;
  hgetall-hset = λ m j c. find_first-cons (λ x. str_eq x.name m) j c.hashes;
  hgetall-del_job = λ n m c. find_job-without n m c.hashes;
  hgetall-xadd = λ m x c. refl;
  hgetall-del_results = λ n m c. refl;
  hgetall-set_ttl = λ m k t c. refl;
  last_score_max = λ q r n s t c. top_score_max q r n s t c.entries;
  last_score_none = λ q r n c. top_score-none q r n c.entries;
  entries_iff = λ q r n s c. listed_iff q r n s c.entries;
  entries_lowest = λ q r n s n' s' c. listed_lowest q r n s n' s' c.entries;
  latest_result-xadd = λ m x c. find_first-cons (λ y. str_eq y.parent m) x c.streams;
  latest_result-del_results = λ n m c. find_result-without n m c.streams;
  latest_result-set_ttl = λ m k t c. refl;
}
