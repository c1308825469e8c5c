-- ===== src/Examples/Streams.antt =====
-- A stream that fills every output to its limit and always leaves a byte over.
use mathlib.Core.Path.{subst}
use awc_remote.Base.{
  ℕ, true, ◌≡◌, ◌≢◌, Option, none, some, [], ◌∷◌, length, replicate, length-replicate,
}
use awc_remote.Failure.{err, out_of_fuel}
use awc_remote.Client.{Library, Inflated}
use awc_remote.Decoders.Tight.{inflate}
use awc_remote.Decoders.Tight.Ends.{HasLimits, inflate-out_of_fuel}

abbrev full : ℕ → Inflated
full limit = record { output = replicate limit 7; unconsumed_tail = 1 ∷ [] }

abbrev endless : Library
endless = record {
  decompress = λ calls block limit. some (full limit);
  open_jpeg = λ block. none;
  triple_des = λ key block. block;
  urandom = λ n. [];
  ard_response = λ credentials generator key_len modulus server_key. [];
  certificates_load = λ host. true;
  typed_username = [];
  typed_password = [];
}

abbrev IsFull : ℕ → Option Inflated → Type 0
IsFull limit none = Unit {0}
IsFull limit (some got) = length got.output ≡ limit

endless-HasLimits : HasLimits endless
endless-HasLimits = record {
  filled =
      λ calls block limit got positive e left. subst (IsFull limit) e (length-replicate limit 7);
}

surplus_refused : (inflate 2 endless [] [] (1 ∷ 2 ∷ []) 3).0 ≢ err out_of_fuel
surplus_refused = inflate-out_of_fuel endless endless-HasLimits [] (1 ∷ 2 ∷ []) 3
