-- ===== src/Stored/Hashes.antt =====
-- The broker's hashes and sets, as the models use them: HGET, HSET and HDEL of one field, DEL of a
-- hash, SISMEMBER, SADD and SREM, with their documented behaviour as laws.
use daily_scheduler.Base.{
  ◌≡◌, refl, String, Bool, true, false, ◌&&◌, Option, none, str_eq, if◌then◌else◌,
}

pub record Hashes : Type 1 where
  pub Conn : Type 0
  pub hget : String → String → Conn → Option String
  pub is_member : String → String → Conn → Bool
  -- HSET for a text, HDEL for none.
  pub put : String → String → Option String → Conn → Conn
  pub del : String → Conn → Conn
  pub sadd : String → String → Conn → Conn
  pub srem : String → String → Conn → Conn
  pub hget-put :
      (k x : String) (v : Option String) (k' x' : String) (c : Conn)
      → hget k' x' (put k x v c) ≡ (if str_eq k k' && str_eq x x' then v else hget k' x' c)
  pub hget-del :
      (k k' x' : String) (c : Conn)
      → hget k' x' (del k c) ≡ (if str_eq k k' then none else hget k' x' c)
  pub hget-sadd : (s n k x : String) (c : Conn) → hget k x (sadd s n c) ≡ hget k x c
  pub hget-srem : (s n k x : String) (c : Conn) → hget k x (srem s n c) ≡ hget k x c
  pub is_member-put :
      (s n k x : String) (v : Option String) (c : Conn)
      → is_member s n (put k x v c) ≡ is_member s n c
  -- A set under another key than the one that is deleted.
  pub is_member-del :
      (k s n : String) (c : Conn) → str_eq k s ≡ false → is_member s n (del k c) ≡ is_member s n c
  pub is_member-sadd :
      (s n s' n' : String) (c : Conn)
      → is_member s' n' (sadd s n c)
        ≡ (if str_eq s s' && str_eq n n' then true else is_member s' n' c)
  pub is_member-srem :
      (s n s' n' : String) (c : Conn)
      → is_member s' n' (srem s n c)
        ≡ (if str_eq s s' && str_eq n n' then false else is_member s' n' c)

-- One that keeps what it holds as functions.
abbrev pub table : Hashes
table = record {
  Conn = (String → String → Option String) × (String → String → Bool);
  hget = λ k x (h, s). h k x;
  is_member = λ k n (h, s). s k n;
  put = λ k x v (h, s). ((λ k' x'. if str_eq k k' && str_eq x x' then v else h k' x'), s);
  del = λ k (h, s). ((λ k' x'. if str_eq k k' then none else h k' x'), s);
  sadd = λ k n (h, s). (h, λ k' n'. if str_eq k k' && str_eq n n' then true else s k' n');
  srem = λ k n (h, s). (h, λ k' n'. if str_eq k k' && str_eq n n' then false else s k' n');
  hget-put = λ k x v k' x' c. refl;
  hget-del = λ k k' x' c. refl;
  hget-sadd = λ s n k x c. refl;
  hget-srem = λ s n k x c. refl;
  is_member-put = λ s n k x v c. refl;
  is_member-del = λ k s n c ne. refl;
  is_member-sadd = λ s n s' n' c. refl;
  is_member-srem = λ s n s' n' c. refl;
}
