-- ===== src/Tests/Address.antt =====
-- The text of an address at concrete values.
use raft_distributed_kv.Prelude.{
  ℕ, ◌≡◌, refl, List, [], ◌∷◌, ◌++◌, none, some, arith, pos, ◌+ℤ◌, ◌-ℤ◌,
}
use raft_distributed_kv.Words.RoundTrip.{All}
use raft_distributed_kv.Metadata.{checked, assign}
use raft_distributed_kv.Messages.LeaderInfo
use raft_distributed_kv.Messages.LeaderInfo.{LeaderInfo}
use raft_distributed_kv.Address.{
  digits, to_string, get_ip, times_ten, scan_char, scan_text, parse_ip, set_leader_info,
}
use raft_distributed_kv.Address.RoundTrip.{IsPart, set_leader_info-get_ip}
use raft_distributed_kv.Address.Short.{count_dots, parse_ip_short}

abbrev leader : LeaderInfo
leader = record { ip0 = pos 10; ip1 = pos 0; ip2 = pos 3; ip3 = pos 254; port = pos 9000 }

-- "10.0.3.254"
abbrev leader_text : List ℕ
leader_text = 49 ∷ 48 ∷ 46 ∷ 48 ∷ 46 ∷ 51 ∷ 46 ∷ 50 ∷ 53 ∷ 52 ∷ []

leader_text_runs : get_ip leader ≡ leader_text
unfolding get_ip to_string digits
leader_text_runs = refl

-- A fourth dot writes past the array.
five_parts_fault : parse_ip leader (leader_text ++ 46 ∷ 49 ∷ []) ≡ none
unfolding parse_ip scan_text scan_char checked assign times_ten ◌+ℤ◌ ◌-ℤ◌
five_parts_fault = refl

leader-parts : All IsPart (leader.ip0 ∷ leader.ip1 ∷ leader.ip2 ∷ leader.ip3 ∷ [])
leader-parts = omega arith

set_leader_info-get_ip_example :
    set_leader_info LeaderInfo.init (get_ip leader) leader.port ≡ some leader
set_leader_info-get_ip_example = set_leader_info-get_ip leader LeaderInfo.init leader-parts

-- The empty text.
parse_ip_short_example : parse_ip LeaderInfo.init [] ≡ none
unfolding count_dots
parse_ip_short_example = parse_ip_short LeaderInfo.init [] (omega arith)
