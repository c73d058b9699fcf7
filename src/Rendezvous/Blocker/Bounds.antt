-- ===== src/Rendezvous/Blocker/Bounds.antt =====
-- Bounds on IP_BLOCKER (`check_ip_blocker` of src/rendezvous_server/relay.rs).
use openuu_server.Prelude.{
  ℕ, String, false, not, ◌&&◌, Option, none, some, [], ◌≡◌, refl, ltb, arith, if◌then◌else◌, eqb,
  String_discrete,
}
use openuu_server.Prelude.Map.{get, insert, get-insert}
use openuu_server.Rendezvous.Blocker.{
  Blocker, BlockEntry, counted, IsBounded, AllBounded, check_ip_blocker, check_ids, elapsed_secs,
  ip_block_dur,
}

check_ids-IsBounded :
    (now : ℕ) (id : String) (e : BlockEntry) → IsBounded e → IsBounded (check_ids now id e).0
unfolding check_ids
check_ids-IsBounded now id e h = ground arith

written_lookup :
    (now : ℕ) (ip j id : String) (b : Blocker) (e : BlockEntry)
    → get String_discrete j b ≡ some e
    → get String_discrete ip (insert String_discrete j (check_ids now id (counted now e)).0 b) ≡ (
        if eqb String_discrete j ip
        then some (check_ids now id (counted now e)).0
        else get String_discrete ip b)
written_lookup now ip j id b e h = get-insert String_discrete j ip _ b

counted-IsBounded :
    (now : ℕ) (e : BlockEntry)
    → IsBounded e
    → (not (ltb ip_block_dur (elapsed_secs now e.count_at)) && ltb 30 e.count) ≡ false
    → IsBounded (counted now e)
counted-IsBounded now e h t = ground arith

checked_entry-IsBounded :
    (now : ℕ) (j id ip : String) (b : Blocker) (e : BlockEntry) (o : Option BlockEntry)
    → get String_discrete j b ≡ o
    → AllBounded b
    → get String_discrete ip (check_ip_blocker now j id b).0 ≡ some e
    → IsBounded e
unfolding check_ip_blocker
checked_entry-IsBounded now j id ip b e none q all h = ground (
  arith,
  all ip e,
  get-insert String_discrete j ip (record { count = 0; count_at = now; ids = []; ids_at = now }) b,
)
checked_entry-IsBounded now j id ip b e (some old) q all h = ground (
  arith,
  all ip e,
  all j old,
  counted-IsBounded now old,
  check_ids-IsBounded now id (counted now old),
  written_lookup now ip j id b old q,
)

-- Whatever addresses and ids ask, every entry counts at most 31 requests and holds at most 301 ids.
check_ip_blocker-AllBounded :
    (now : ℕ) (ip id : String) (b : Blocker)
    → AllBounded b
    → AllBounded (check_ip_blocker now ip id b).0
check_ip_blocker-AllBounded now j id b all ip e h =
    checked_entry-IsBounded now j id ip b e (get String_discrete j b) refl all h
