-- ===== src/Address/Short.antt =====
-- ParseIp on a text with too few dots.
use raft_distributed_kv.Prelude.{
  ℕ, zero, suc, ◌+◌, ◌<◌, ◌≡◌, ◌≢◌, refl, List, [], ◌∷◌, get_elem?, set, Option, none, some,
  if◌then◌else◌, ◌==◌, Bool-cases, Option-cases, inl, inr, ℤ, pos, ◌+ℤ◌, arith,
}
use raft_distributed_kv.Metadata.{checked, at, assign}
use raft_distributed_kv.Messages.LeaderInfo.{LeaderInfo}
use raft_distributed_kv.Address.{dot, Scan, scan_char, scan_text, read_part, scan_start, parse_ip}

-- The dots of a text.
unfoldable pub count_dots : List ℕ → ℕ
count_dots [] = 0
count_dots (c ∷ cs) = (if c == dot then 1 else 0) + count_dots cs

-- The scan has come to the part `k`, and the last part is not written.
pub record IsShort (k : ℕ) (s : Scan) : Type 0 where
  pub place : s.i ≡ pos k
  pub unwritten : get_elem? s.ips 3 ≡ some none

module _ {ℓ} {A : Type ℓ} where
  pub get_elem?-set_other :
      (xs : List A) (i j : ℕ) (v : A) → i ≢ j → get_elem? (set xs i v) j ≡ get_elem? xs j
  get_elem?-set_other [] i j v h = refl
  get_elem?-set_other (x ∷ xs) zero zero v h = elim (h refl) [ ]
  get_elem?-set_other (x ∷ xs) zero (suc j) v h = refl
  get_elem?-set_other (x ∷ xs) (suc i) zero v h = refl
  get_elem?-set_other (x ∷ xs) (suc i) (suc j) v h =
      get_elem?-set_other xs i j v (λ e. h (omega arith))

-- A write to a part before the last.
assign-IsShort :
    (ips ips' : List (Option ℤ)) (k : ℕ) (v : Option ℤ)
    → k < 3
    → get_elem? ips 3 ≡ some none
    → assign ips (pos k) v ≡ some ips'
    → get_elem? ips' 3 ≡ some none
unfolding assign
assign-IsShort ips ips' k v h e a =
    ground (arith, get_elem?-set_other ips k 3 v (λ same. omega arith))

scan_char-IsShort :
    (c : ℕ) (s s' : Scan) (k : ℕ)
    → IsShort k s
    → k < 3
    → scan_char c s ≡ some s'
    → IsShort (k + (if c == dot then 1 else 0)) s'
unfolding scan_char checked ◌+ℤ◌
scan_char-IsShort c s s' k h small e = elim (Bool-cases (c == dot)) [
  | inl y ↦ elim (Option-cases (assign s.ips s.i (some s.cur_num))) [
    | inl f ↦ ground arith
    | inr (ips, f) ↦
        let written : assign s.ips (pos k) (some s.cur_num) ≡ some ips = ground arith in
        let kept = assign-IsShort s.ips ips k (some s.cur_num) small h.unwritten written in
        record { place = ground arith; unwritten = ground (arith, kept) }
  ]
  | inr n ↦ record { place = ground arith; unwritten = ground arith }
]

scan_text-IsShort :
    (cs : List ℕ) (s s' : Scan) (k j : ℕ)
    → IsShort k s
    → k + count_dots cs ≡ j
    → j < 3
    → scan_text cs s ≡ some s'
    → IsShort j s'
unfolding scan_text count_dots
scan_text-IsShort [] s s' k j h total small e = record {
  place = ground arith;
  unwritten = ground arith;
}
scan_text-IsShort (c ∷ cs) s s' k j h total small e = elim (Option-cases (scan_char c s)) [
  | inl f ↦ ground arith
  | inr (s1, f) ↦
      scan_text-IsShort cs s1 s' (k + (if c == dot then 1 else 0)) j
        (scan_char-IsShort c s s1 k h (omega arith) f) (omega arith) small (ground arith)
]

-- Whatever its characters, a text of fewer than three dots makes ParseIp fault: a part of the
-- address is used that was never written, unless the number before it has overflowed.
pub parse_ip_short : (l : LeaderInfo) (ip : List ℕ) → count_dots ip < 3 → parse_ip l ip ≡ none
unfolding parse_ip read_part at
parse_ip_short l ip h = elim (Option-cases (scan_text ip scan_start)) [
  | inl e ↦ ground arith
  | inr (s, e) ↦
      let j : ℕ = count_dots ip in
      let short =
        scan_text-IsShort ip scan_start s 0 j (record { place = refl; unwritten = refl })
          (omega arith) h e in
      elim (Option-cases (assign s.ips (pos j) (some s.cur_num))) [
        | inl f ↦ ground arith
        | inr (ips, f) ↦
            let last = assign-IsShort s.ips ips j (some s.cur_num) h short.unwritten f in
            ground (arith, last)
      ]
]
