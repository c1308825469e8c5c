-- ===== src/Decoders/Tight/Ends.antt =====
-- The loop of `_decompress` in vncdotool/decoders/tight.py, and the fuel that stands for it.
use awc_remote.Base.{
  ℕ, ◌-◌, ◌<◌, ◌≡◌, ◌≢◌, ◌∙◌, refl, Bytes, Option, none, some, [], ◌∷◌, ◌++◌, length, ltb, arith,
  if_both, ltb→lt,
}
use awc_remote.Failure.{Result, ok, err, out_of_fuel, zlib_error, decode_error}
use awc_remote.Client.{Library, Stream, Inflated}
use awc_remote.Decoders.Tight.{inflate}

-- What is relied on of zlib: it leaves input over only where it has filled the output to its limit.
pub record HasLimits (lib : Library) : Type 0 where
  pub filled :
      (calls : Stream) (block : Bytes) (limit : ℕ) (got : Inflated)
      → 0 < limit
      → lib.decompress calls block limit ≡ some got
      → got.unconsumed_tail ≢ []
      → length got.output ≡ limit

last_round :
    (lib : Library) (calls : Stream) (out tail : Bytes) (size : ℕ)
    → length out ≡ size
    → (inflate 1 lib calls out tail size).0 ≢ err out_of_fuel
unfolding inflate
last_round lib calls out tail size h = ground arith

abbrev Ended : Result Bytes × Stream → Type 0
Ended r = r.0 ≢ err out_of_fuel

-- A round that gets output, and the round that looks for more than the rectangle's bytes.
module _ (calls : Stream) (out : Bytes) where
  tail_ends :
      (t : Bytes) (more : ℕ → Bytes → Result Bytes × Stream)
      → ((b : ℕ) (rest : Bytes) → t ≡ b ∷ rest → Ended (more b rest))
      → Ended (elim t [ [] ↦ (ok out, calls) | b ∷ rest ↦ more b rest ])
  tail_ends [] more h = λ e. cc
  tail_ends (b ∷ rest) more h = h b rest refl

  surplus_ends :
      (o : Option Inflated)
      → Ended (elim o [
        | none ↦ (err zlib_error, calls)
        | some got ↦ elim got.output [ [] ↦ (ok out, calls) | b ∷ more ↦ (err decode_error, calls) ]
      ])
  surplus_ends none = λ e. cc
  surplus_ends (some got) =
      tail_ends got.output (λ b more. (err decode_error, calls)) (λ b rest h. λ e. cc)

round_ends :
    (calls : Stream) (o : Option Inflated) (more : Inflated → ℕ → Bytes → Result Bytes × Stream)
    → ((got : Inflated) (b : ℕ) (rest : Bytes)
        → o ≡ some got
        → got.unconsumed_tail ≡ b ∷ rest
        → Ended (more got b rest))
    → Ended (elim o [
      | none ↦ (err zlib_error, calls)
      | some got ↦ elim got.unconsumed_tail [
        | [] ↦ (ok got.output, calls)
        | b ∷ rest ↦ more got b rest
      ]
    ])
round_ends calls none more h = λ e. cc
round_ends calls (some got) more h =
    tail_ends calls got.output got.unconsumed_tail (more got) (λ b rest k. h got b rest refl k)

-- If zlib leaves input over only where it has filled the output, two rounds are enough: with them the
-- loop never runs out of fuel, whatever the block holds.
pub inflate-out_of_fuel :
    (lib : Library)
    → HasLimits lib
    → (calls : Stream) (block : Bytes) (size : ℕ)
    → (inflate 2 lib calls [] block size).0 ≢ err out_of_fuel
unfolding inflate
inflate-out_of_fuel lib law calls block size =
    if_both Ended (ltb 0 (size - 0))
      (λ more.
        round_ends (calls ++ (block, size - 0) ∷ []) (lib.decompress calls block (size - 0))
          (λ got b rest. inflate 1 lib (calls ++ (block, size - 0) ∷ []) got.output (b ∷ rest) size)
          (λ got b rest e left. last_round lib _ got.output (b ∷ rest) size (
            law.filled calls block (size - 0) got (ltb→lt 0 (size - 0) more) e (λ empty. cc)
            ∙ omega arith)))
      (λ enough. surplus_ends (calls ++ (block, 1) ∷ []) [] (lib.decompress calls block 1))
