-- ===== src/Dag/Secret/Bundles.antt =====
-- internal/dag/secret.go: the validators of certificate bundles.
use sesame.Common.{
  ==_iff, nat_eq, string_eq, Bytes, bytes_eq, Bool-cases, Option-cases, length, All, ℕ, zero, suc,
  ◌<◌, ◌≡◌, refl, ◌≢◌, ◌↔◌, ◌⊎◌, inl, inr, Bool, true, false, none, some, List, [], ◌∷◌, arith,
}
use sesame.Dag.Secret.{
  stop, Block, Crypto, out_of_fuel, contains_pem_header, certificate_type, serving_loop,
  validate_serving_bundle, ca_loop, validate_ca_bundle, key_step, key_loop, validate_private_key,
}

module _ (crypto : Crypto) where
  -- The blocks that a reader of the text meets, until no PEM header is left.
  pub data Blocks : Bytes → List Block → Type 0 where
    done : {d : Bytes} → contains_pem_header d ≡ false → Blocks d []
    more :
        {d rest : Bytes} {b : Block} {bs : List Block}
        → contains_pem_header d ≡ true
        → crypto.decode d ≡ some (b, rest)
        → Blocks rest bs
        → Blocks d (b ∷ bs)

  serving_loop-ends :
      (fuel i : ℕ) (d : Bytes) → length d < fuel → serving_loop crypto fuel i d ≢ some out_of_fuel
  unfolding serving_loop
  serving_loop-ends zero i d h = absurd (omega arith)
  serving_loop-ends (suc fuel) i d h = elim (Option-cases (crypto.decode d)) [
    | inl e ↦ ground arith
    | inr (next, e) ↦
        let (b, rest) = next in
        ground (arith, serving_loop-ends fuel (suc i) rest, crypto.decode_shorter d b rest e)
  ]

  ca_loop-ends :
      (fuel : ℕ) (exists : Bool) (d : Bytes)
      → length d < fuel
      → ca_loop crypto fuel exists d ≢ some out_of_fuel
  unfolding ca_loop
  ca_loop-ends zero exists d h = absurd (omega arith)
  ca_loop-ends (suc fuel) exists d h = elim (Option-cases (crypto.decode d)) [
    | inl e ↦ ground arith
    | inr (next, e) ↦
        let (b, rest) = next in
        ground (arith, ca_loop-ends fuel true rest, crypto.decode_shorter d b rest e)
  ]

  key_step-ne-out_of_fuel : (b : Block) → key_step crypto b ≢ stop (some out_of_fuel)
  unfolding key_step
  key_step-ne-out_of_fuel b = ground arith

  key_loop-ends :
      (fuel keys : ℕ) (d : Bytes) → length d < fuel → key_loop crypto fuel keys d ≢ some out_of_fuel
  unfolding key_loop
  key_loop-ends zero keys d h = absurd (omega arith)
  key_loop-ends (suc fuel) keys d h = elim (Option-cases (crypto.decode d)) [
    | inl e ↦ ground arith
    | inr (next, e) ↦
        let (b, rest) = next in
        ground (
          arith,
          key_loop-ends fuel (suc keys) rest,
          key_loop-ends fuel keys rest,
          key_step-ne-out_of_fuel b,
          crypto.decode_shorter d b rest e,
        )
  ]

  -- The three validators end on every input: none of them runs out of fuel.
  pub validators_end :
      (d : Bytes)
      → (validate_serving_bundle crypto d ≢ some out_of_fuel)
        × (validate_ca_bundle crypto d ≢ some out_of_fuel)
        × (validate_private_key crypto d ≢ some out_of_fuel)
  unfolding validate_serving_bundle validate_ca_bundle validate_private_key
  validators_end d = (
    serving_loop-ends (suc (length d)) 0 d (omega arith),
    ca_loop-ends (suc (length d)) false d (omega arith),
    key_loop-ends (suc (length d)) 0 d (omega arith),
  )

  -- The type of the block is that of a certificate; nothing is said of its content.
  abbrev pub IsLabelled : Block → Type 0
  IsLabelled b = b.block_type ≡ certificate_type

  ca_step :
      (fuel : ℕ) (exists : Bool) (d : Bytes) (b : Block) (rest : Bytes)
      → contains_pem_header d ≡ true
      → crypto.decode d ≡ some (b, rest)
      → ca_loop crypto (suc fuel) exists d ≡ none
      → IsLabelled b × (ca_loop crypto fuel true rest ≡ none)
  unfolding ca_loop
  ca_step fuel exists d b rest has found e = ground (arith, ==_iff b.block_type certificate_type)

  ca_loop_sound :
      (fuel : ℕ) (exists : Bool) (d : Bytes)
      → ca_loop crypto fuel exists d ≡ none
      → (bs : List Block) × Blocks d bs × All IsLabelled bs × ((exists ≡ true) ⊎ (bs ≢ []))
  unfolding ca_loop
  ca_loop_sound zero exists d e = cc
  ca_loop_sound (suc fuel) exists d e = elim (Bool-cases (contains_pem_header d)) [
    | inr last ↦ ([], done last, tt, inl (ground arith))
    | inl has ↦ elim (Option-cases (crypto.decode d)) [
      | inl bad ↦ absurd (ground arith)
      | inr (next, found) ↦
          let (b, rest) = next in
          let (same, e') = ca_step fuel exists d b rest has found e in
          let (bs, blocks, certs, _) = ca_loop_sound fuel true rest e' in
          (b ∷ bs, more has found blocks, (same, certs), inr (λ x. cc x))
    ]
  ]

  ca_loop_complete :
      (fuel : ℕ) (exists : Bool) {d : Bytes} {bs : List Block}
      → length d < fuel
      → Blocks d bs
      → All IsLabelled bs
      → (exists ≡ true) ⊎ (bs ≢ [])
      → ca_loop crypto fuel exists d ≡ none
  unfolding ca_loop
  ca_loop_complete zero exists h blocks certs some_block = absurd (omega arith)
  ca_loop_complete (suc fuel) true h (done last) certs some_block = ground arith
  ca_loop_complete (suc fuel) false h (done last) certs (inl e) = cc
  ca_loop_complete (suc fuel) false h (done last) certs (inr k) = absurd (k refl)
  ca_loop_complete (suc fuel) exists {d} h (more {rest = rest} {b = b} has found blocks) certs
        some_block =
      ground (
        arith,
        ==_iff b.block_type certificate_type,
        ca_loop_complete fuel true (omega (arith, crypto.decode_shorter d b rest found)) blocks
            certs.1 (inl refl),
      )

  -- A bundle is accepted as a CA bundle exactly when its PEM blocks decode to the end, there is at
  -- least one, and the type of each is CERTIFICATE. The contents of the blocks are not read.
  pub validate_ca_bundle_iff :
      (d : Bytes)
      → (validate_ca_bundle crypto d ≡ none)
        ↔ ((bs : List Block) × Blocks d bs × All IsLabelled bs × (bs ≢ []))
  unfolding validate_ca_bundle
  validate_ca_bundle_iff d = (
    λ e.
        let (bs, blocks, certs, some_block) = ca_loop_sound (suc (length d)) false d e in
        (bs, blocks, certs, elim some_block [ inl x ↦ absurd (ground arith) | inr k ↦ k ]),
    λ (bs, blocks, certs, k).
        ca_loop_complete (suc (length d)) false (omega arith) blocks certs (inr k),
  )
