-- ===== src/Decode/Cuts.antt =====
-- Where DecodeFrame ends, and where it cuts the frame at the wrong place.
use meshnet_cni.Prelude.{
  ℕ, zero, suc, ◌+◌, ◌-◌, ◌<◌, ◌≤◌, ◌≡◌, ◌≢◌, sym, subst, refl, ◌⊎◌, List, [], ◌∷◌, arith, length,
  inl, inr, leb, ltb, if◌then◌else◌,
}
use meshnet_cni.Decode.{
  Parsed, no_ethernet, crashes, too_deep, reads, packets, panics, out_of_fuel, drop, decode_loop,
  decode_frame,
}

length-drop {ℓ} : {A : Type ℓ} (n : ℕ) (l : List A) → length (drop n l) ≡ length l - n
length-drop zero l = omega arith
length-drop (suc n) [] = omega arith
length-drop (suc n) (x ∷ l) = omega (arith, length-drop n l)

Parsed-cases :
    (p : Parsed) → (p ≡ no_ethernet) ⊎ (p ≡ crashes) ⊎ (p ≡ too_deep) ⊎ ((n : ℕ) × (p ≡ reads n))
Parsed-cases no_ethernet = inl refl
Parsed-cases crashes = inr (inl refl)
Parsed-cases too_deep = inr (inr (inl refl))
Parsed-cases (reads n) = inr (inr (inr (n, refl)))

loop_ends :
    (parse : List ℕ → Parsed) (total fuel : ℕ) (frame : List ℕ) (decoded num : ℕ)
    → ((f : List ℕ) → parse f ≢ too_deep)
    → total < fuel + decoded
    → decoded ≤ total
    → decode_loop parse total fuel frame decoded num ≢ out_of_fuel
unfolding decode_loop
loop_ends parse total zero frame decoded num deep h le = absurd (omega arith)
loop_ends parse total (suc fuel) frame decoded num deep h le = elim (Parsed-cases (parse frame)) [
  | inl e ↦ rw (e, decode_loop) (λ p. cc)
  | inr (inl e) ↦ rw (e, decode_loop) (λ p. cc)
  | inr (inr (inl e)) ↦ absurd (deep frame e)
  | inr (inr (inr (len, e))) ↦
      rw (e, decode_loop)
        (ground (
          arith,
          loop_ends parse total fuel (drop (decoded + (14 + len)) frame) (decoded + (14 + len))
              (num + 1) deep,
        ))
]

-- DecodeFrame ends on every frame, whatever the parser finds in it, if it does so itself.
pub decode_frame_ends :
    (parse : List ℕ → Parsed) (frame : List ℕ)
    → ((f : List ℕ) → parse f ≢ too_deep)
    → decode_frame parse frame ≢ out_of_fuel
unfolding decode_frame
decode_frame_ends parse frame deep =
    loop_ends parse (length frame) (suc (length frame)) frame 0 1 deep (omega arith) (omega arith)

loop_round :
    (parse : List ℕ → Parsed) (total fuel : ℕ) (frame : List ℕ) (decoded num len : ℕ)
    → parse frame ≡ reads len
    → decode_loop parse total (suc fuel) frame decoded num ≡ (
        if leb (decoded + (14 + len) + 14) total
        then (if ltb (length frame) (decoded + (14 + len))
            then panics
            else decode_loop parse total fuel
                (drop (decoded + (14 + len)) frame)
                (decoded + (14 + len))
                (num + 1))
        else packets num)
unfolding decode_loop
loop_round parse total fuel frame decoded num len e = rw (e, decode_loop)

two_rounds :
    (parse : List ℕ → Parsed) (frame : List ℕ) (fuel a b : ℕ)
    → parse frame ≡ reads a
    → parse (drop (14 + a) frame) ≡ reads b
    → (14 + a) + (14 + b) + 14 ≤ length frame
    → length frame < (14 + a) + (14 + a) + (14 + b)
    → decode_loop parse (length frame) (suc (suc fuel)) frame 0 1 ≡ panics
two_rounds parse frame fuel a b first second room short =
    let cut : 0 + (14 + a) ≡ 14 + a = omega arith in
    let second' : parse (drop (0 + (14 + a)) frame) ≡ reads b = rw cut second in
    ground (
      arith,
      loop_round parse (length frame) (suc fuel) frame 0 1 a first,
      loop_round parse (length frame) fuel (drop (0 + (14 + a)) frame) (0 + (14 + a)) (1 + 1) b
          second',
      length-drop (0 + (14 + a)) frame,
    )

-- The frame is cut by the length of all packets so far, but it has already lost the packets before
-- the last: a frame whose first two packets leave room for a header, and which is shorter than the
-- first packet counted twice and the second once, makes DecodeFrame slice out of range.
pub third_packet_panics :
    (parse : List ℕ → Parsed) (frame : List ℕ) (a b : ℕ)
    → parse frame ≡ reads a
    → parse (drop (14 + a) frame) ≡ reads b
    → (14 + a) + (14 + b) + 14 ≤ length frame
    → length frame < (14 + a) + (14 + a) + (14 + b)
    → decode_frame parse frame ≡ panics
unfolding decode_frame
third_packet_panics parse frame a b first second room short =
    let long : length frame ≡ suc (length frame - 1) = omega arith in
    subst (λ n. decode_loop parse (length frame) (suc n) frame 0 1 ≡ panics) (sym long)
      (two_rounds parse frame (length frame - 1) a b first second room short)
