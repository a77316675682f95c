-- ===== src/Address.antt =====
-- The text of an address in LeaderInfo: GetIp, ParseIp and SetLeaderInfo of Messages.cpp. A string
-- is the list of its character codes, all below 128. A fault, such as a write past `ips[4]`, the use of a place
-- of it that was not written, or an overflow of an int, is `none`.
pub mod RoundTrip
pub mod Short
use raft_distributed_kv.Prelude.{
  ℕ, zero, suc, ◌+◌, ◌*◌, ◌/◌, ◌%◌, List, [], ◌∷◌, ◌++◌, Option, none, some, ◌>>=◌, if◌then◌else◌,
  ltb, ◌==◌, ℤ, pos, negsuc, ◌+ℤ◌, ◌-ℤ◌,
}
use raft_distributed_kv.Metadata.{checked, at, assign}
use raft_distributed_kv.Messages.LeaderInfo.{LeaderInfo}

-- '.', '0' and '-'
abbrev pub dot : ℕ
dot = 46

abbrev pub digit_zero : ℕ
digit_zero = 48

abbrev pub minus_sign : ℕ
minus_sign = 45

-- The decimal digits of a number; an `int` has at most ten.
unfoldable pub digits : ℕ → ℕ → List ℕ
digits zero n = []
digits (suc fuel) n =
    let front = digits fuel (n / 10) in
    if ltb n 10 then (digit_zero + n) ∷ [] else (front ++ (digit_zero + n % 10) ∷ [])

-- `std::to_string` of an `int`.
unfoldable pub to_string : ℤ → List ℕ
to_string (pos n) = digits 10 n
to_string (negsuc n) = minus_sign ∷ digits 10 (n + 1)

-- `GetIp`
unfoldable pub get_ip : LeaderInfo → List ℕ
get_ip l =
    to_string l.ip0 ++ dot ∷ (to_string l.ip1 ++ dot ∷ (to_string l.ip2 ++ dot ∷ to_string l.ip3))

-- The local variables of ParseIp; a place of `ips` is `none` until it is written.
pub record Scan : Type 0 where
  pub ips : List (Option ℤ)
  pub i : ℤ
  pub cur_num : ℤ

-- `cur_num * 10`
unfoldable pub times_ten : ℤ → ℤ
times_ten (pos n) = pos (n * 10)
times_ten (negsuc n) = negsuc (n * 10 + 9)

-- One round of the loop over the characters.
unfoldable pub scan_char : ℕ → Scan → Option Scan
scan_char c s =
    if c == dot
    then (do
      ips ← assign s.ips s.i (some s.cur_num)
      next ← checked (s.i +ℤ pos 1)
      some (record { ips = ips; i = next; cur_num = pos 0 }))
    else (do
      shifted ← checked (times_ten s.cur_num)
      sum ← checked (shifted +ℤ (pos c -ℤ pos digit_zero))
      some (record s { cur_num = sum }))

unfoldable pub scan_text : List ℕ → Scan → Option Scan
scan_text [] s = some s
scan_text (c ∷ cs) s = do s' ← scan_char c s; scan_text cs s'

-- `ips[j]` as a value: a place that was not written is a fault.
unfoldable pub read_part : List (Option ℤ) → ℤ → Option ℤ
read_part ips j = do part ← at ips j; part

-- `int cur_num = 0; int ips[4]; int i = 0;`
abbrev pub scan_start : Scan
scan_start = record { ips = none ∷ none ∷ none ∷ none ∷ []; i = pos 0; cur_num = pos 0 }

unfoldable pub parse_ip : LeaderInfo → List ℕ → Option LeaderInfo
parse_ip l ip = do
  s ← scan_text ip scan_start
  ips ← assign s.ips s.i (some s.cur_num)
  ip0 ← read_part ips (pos 0)
  ip1 ← read_part ips (pos 1)
  ip2 ← read_part ips (pos 2)
  ip3 ← read_part ips (pos 3)
  some (record l { ip0 = ip0; ip1 = ip1; ip2 = ip2; ip3 = ip3 })

-- `SetLeaderInfo`
unfoldable pub set_leader_info : LeaderInfo → List ℕ → ℤ → Option LeaderInfo
set_leader_info l ip port = parse_ip (record l { port = port }) ip
