-- ===== src/Address/RoundTrip.antt =====
-- ParseIp on what GetIp writes.
use raft_distributed_kv.Prelude.{
  ℕ, zero, suc, ◌+◌, ◌*◌, ◌/◌, ◌%◌, ◌^◌, ◌<◌, ◌≡◌, refl, ◌∙◌, List, [], ◌∷◌, ◌++◌, Option, none,
  some, ltb, Bool-cases, Option-cases, inl, inr, ℤ, pos, negsuc, ◌+ℤ◌, ◌-ℤ◌, ◌≤ℤ◌, int_max, arith,
}
use raft_distributed_kv.Metadata.{checked, at, assign}
use raft_distributed_kv.Messages.LeaderInfo.{LeaderInfo}
use raft_distributed_kv.Words.RoundTrip.{All}
use raft_distributed_kv.Address.{
  dot, digit_zero, digits, to_string, get_ip, Scan, times_ten, scan_char, scan_text, read_part,
  scan_start, parse_ip, set_leader_info,
}

-- A part of an address: an int that is not negative.
pub record IsPart (z : ℤ) : Type 0 where
  pub low : pos 0 ≤ℤ z
  pub high : z ≤ℤ int_max

-- The scan of a text in two parts.
scan_text-append :
    (xs ys : List ℕ) (s s' : Scan)
    → scan_text xs s ≡ some s'
    → scan_text (xs ++ ys) s ≡ scan_text ys s'
unfolding scan_text
scan_text-append [] ys s s' e = ground arith
scan_text-append (c ∷ xs) ys s s' e = elim (Option-cases (scan_char c s)) [
  | inl f ↦ ground arith
  | inr (s1, f) ↦
      let rest : scan_text xs s1 ≡ some s' = ground arith in
      ground (arith, scan_text-append xs ys s1 s' rest)
]

-- A digit after the number read so far.
scan_char-digit :
    (n d : ℕ) (ips : List (Option ℤ)) (i : ℤ)
    → d < 10
    → pos (n * 10 + d) ≤ℤ int_max
    → scan_char (digit_zero + d) (record { ips = ips; i = i; cur_num = pos n })
      ≡ some (record { ips = ips; i = i; cur_num = pos (n * 10 + d) })
unfolding scan_char times_ten checked ◌+ℤ◌ ◌-ℤ◌
scan_char-digit n d ips i h fits = ground arith

-- A text of one digit more.
scan_text-last :
    (xs : List ℕ) (n d : ℕ) (ips : List (Option ℤ)) (i : ℤ)
    → d < 10
    → pos (n * 10 + d) ≤ℤ int_max
    → scan_text xs (record { ips = ips; i = i; cur_num = pos 0 })
      ≡ some (record { ips = ips; i = i; cur_num = pos n })
    → scan_text (xs ++ (digit_zero + d) ∷ []) (record { ips = ips; i = i; cur_num = pos 0 })
      ≡ some (record { ips = ips; i = i; cur_num = pos (n * 10 + d) })
unfolding scan_text
scan_text-last xs n d ips i h fits e = ground (
  arith,
  scan_char-digit n d ips i h fits,
  scan_text-append xs ((digit_zero + d) ∷ []) (record { ips = ips; i = i; cur_num = pos 0 })
      (record { ips = ips; i = i; cur_num = pos n }) e,
)

-- The digits of a number are read as the number.
scan_text-digits :
    (fuel n : ℕ) (ips : List (Option ℤ)) (i : ℤ)
    → n < 10 ^ fuel
    → pos n ≤ℤ int_max
    → scan_text (digits fuel n) (record { ips = ips; i = i; cur_num = pos 0 })
      ≡ some (record { ips = ips; i = i; cur_num = pos n })
unfolding digits scan_text
scan_text-digits zero n ips i h fits = ground arith
scan_text-digits (suc fuel) n ips i h fits =
    let front = scan_text-digits fuel (n / 10) ips i (omega arith) (omega arith) in
    let last =
      scan_text-last (digits fuel (n / 10)) (n / 10) (n % 10) ips i (omega arith) (omega arith)
        front in
    let same : n / 10 * 10 + n % 10 ≡ n = omega arith in
    elim (Bool-cases (ltb n 10)) [
      | inl e ↦ ground (arith, scan_char-digit 0 n ips i (ground arith) (omega arith))
      | inr e ↦ ground (arith, last, same)
    ]

scan_text-to_string :
    (z : ℤ) (ips : List (Option ℤ)) (i : ℤ)
    → IsPart z
    → scan_text (to_string z) (record { ips = ips; i = i; cur_num = pos 0 })
      ≡ some (record { ips = ips; i = i; cur_num = z })
unfolding to_string
scan_text-to_string (pos n) ips i h = scan_text-digits 10 n ips i (omega (arith, h.high)) h.high
scan_text-to_string (negsuc n) ips i h = ground (arith, h.low)

-- A number and the dot after it.
scan_text-part :
    (z : ℤ) (rest : List ℕ) (ips ips' : List (Option ℤ)) (k : ℕ)
    → IsPart z
    → k < 4
    → assign ips (pos k) (some z) ≡ some ips'
    → scan_text (to_string z ++ dot ∷ rest) (record { ips = ips; i = pos k; cur_num = pos 0 })
      ≡ scan_text rest (record { ips = ips'; i = pos (k + 1); cur_num = pos 0 })
unfolding scan_text scan_char checked ◌+ℤ◌
scan_text-part z rest ips ips' k h small e = ground (
  arith,
  scan_text-append (to_string z) (dot ∷ rest) (record { ips = ips; i = pos k; cur_num = pos 0 })
      (record { ips = ips; i = pos k; cur_num = z }) (scan_text-to_string z ips (pos k) h),
)

-- SetLeaderInfo, given the text that GetIp makes of a LeaderInfo and its port, makes this
-- LeaderInfo of every other, if the four parts of the address are ints that are not negative.
pub set_leader_info-get_ip :
    (l m : LeaderInfo)
    → All IsPart (l.ip0 ∷ l.ip1 ∷ l.ip2 ∷ l.ip3 ∷ [])
    → set_leader_info m (get_ip l) l.port ≡ some l
unfolding set_leader_info parse_ip get_ip assign at read_part
set_leader_info-get_ip l m (h0, (h1, (h2, (h3, end)))) =
    let tail3 = to_string l.ip3 in
    let tail2 = to_string l.ip2 ++ dot ∷ tail3 in
    let tail1 = to_string l.ip1 ++ dot ∷ tail2 in
    let one : List (Option ℤ) = some l.ip0 ∷ none ∷ none ∷ none ∷ [] in
    let two : List (Option ℤ) = some l.ip0 ∷ some l.ip1 ∷ none ∷ none ∷ [] in
    let three : List (Option ℤ) = some l.ip0 ∷ some l.ip1 ∷ some l.ip2 ∷ none ∷ [] in
    let e0 = scan_text-part l.ip0 tail1 scan_start.ips one 0 h0 (omega arith) refl in
    let e1 = scan_text-part l.ip1 tail2 one two 1 h1 (omega arith) refl in
    let e2 = scan_text-part l.ip2 tail3 two three 2 h2 (omega arith) refl in
    let e3 = scan_text-to_string l.ip3 three (pos 3) h3 in
    let scanned : scan_text (get_ip l) scan_start
        ≡ some (record { ips = three; i = pos 3; cur_num = l.ip3 }) =
      e0 ∙ e1 ∙ e2 ∙ e3 in
    ground (arith, scanned)
