-- ===== src/Peer/ConnectionLimit.antt =====
-- src/peer/connectionlimit.cpp: tokens for connections. A hash is the number that it is, and the limit of
-- the system is a parameter.
pub mod Safety
mod Tests
use libktorrent_stream.Base.{
  ℕ, ◌+◌, ◌-◌, ◌%◌, ◌^◌, Bool, true, false, not, ◌&&◌, ◌||◌, Option, none, some, List, [], ltb, leb,
  ◌==◌, if◌then◌else◌, find, put, erase,
}

pub record ConnectionLimit : Type 0 where
  pub global_limit : ℕ
  pub global_total : ℕ
  pub torrent_limit : ℕ
  pub torrent_totals : List (ℕ × ℕ)

unfoldable pub create : ℕ → ConnectionLimit
create system_limit = record {
  global_limit = system_limit;
  global_total = 0;
  torrent_limit = 0;
  torrent_totals = [];
}

unfoldable pub set_limits : ℕ → ConnectionLimit → ℕ → ℕ → ConnectionLimit
set_limits system_limit c global_limit torrent_limit = record c {
  global_limit = if ltb system_limit global_limit then system_limit else global_limit;
  torrent_limit = torrent_limit;
}

-- `i.value() = count; global_total++`, and the token
unfoldable pub grant : ConnectionLimit → ℕ → ℕ → Bool × ConnectionLimit
grant c hash count = (
  true,
  record c {
    global_total = (c.global_total + 1) % 2 ^ 32;
    torrent_totals = put hash (count % 2 ^ 32) c.torrent_totals;
  },
)

-- What `acquire` does with the count of the torrent, if it has one
unfoldable pub acquire_from : ConnectionLimit → ℕ → Option ℕ → Bool × ConnectionLimit
acquire_from c hash none = grant c hash 1
acquire_from c hash (some count) =
    if c.torrent_limit == 0 || ltb count c.torrent_limit
    then grant c hash (count + 1)
    else (false, c)

-- `acquire`: whether there is a token
unfoldable pub acquire : ConnectionLimit → ℕ → Bool × ConnectionLimit
acquire c hash =
    if not (c.global_limit == 0) && leb c.global_limit c.global_total
    then (false, c)
    else acquire_from c hash (find hash c.torrent_totals)

unfoldable pub release_from : ConnectionLimit → ℕ → Option ℕ → ConnectionLimit
release_from c hash none = c
release_from c hash (some count) =
    let count' = count - 1 in
    record c {
      torrent_totals =
          if count' == 0 then erase hash c.torrent_totals else put hash count' c.torrent_totals;
      global_total = c.global_total - 1;
    }

-- `release`, which the destructor of a token calls. Subtraction on ℕ stops at 0, as the code sees to.
unfoldable pub release : ConnectionLimit → ℕ → ConnectionLimit
release c hash = release_from c hash (find hash c.torrent_totals)
