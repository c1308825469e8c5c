-- ===== src/Generator/Resume.antt =====
-- `generator.send(block)`: a generator runs up to its next yield.
use awc_remote.Base.{ℕ, ◌≡◌, refl, Bool, Bytes}
use awc_remote.Failure.{Exn}
use awc_remote.Generator.{Gen, done, raise, ask, look, change, pending}

pub data Resumed (S A : Type 0) : Type 0 where
  returned : A → S → Resumed S A
  failed : Exn → S → Resumed S A
  parked : ℕ → (Bytes → Gen S A) → S → Resumed S A

-- `ahead` says whether the packet holds bytes beyond the block that was sent.
unfoldable pub resume : {S A : Type 0} → Gen S A → S → Bool → Resumed S A
resume (done a) s ahead = returned a s
resume (raise e) s ahead = failed e s
resume (ask n k) s ahead = parked n k s
resume (look k) s ahead = resume (k s) s ahead
resume (change f m) s ahead = resume m (f s) ahead
resume (pending k) s ahead = resume (k ahead) s ahead

-- A generator that never looks at what is in the packet.
pub data IsBlind {S A : Type 0} : Gen S A → Type 0 where
  blind_done : (a : A) → IsBlind (done a)
  blind_raise : (e : Exn) → IsBlind (raise e)
  blind_ask : (n : ℕ) {k : Bytes → Gen S A} → ((b : Bytes) → IsBlind (k b)) → IsBlind (ask n k)
  blind_look : {k : S → Gen S A} → ((s : S) → IsBlind (k s)) → IsBlind (look k)
  blind_change : (f : S → S) {m : Gen S A} → IsBlind m → IsBlind (change f m)

-- Such a generator runs the same whatever has arrived.
pub resume-IsBlind :
    {S A : Type 0} {g : Gen S A} → IsBlind g → (s : S) (a b : Bool) → resume g s a ≡ resume g s b
unfolding resume
resume-IsBlind (blind_done x) s a b = refl
resume-IsBlind (blind_raise e) s a b = refl
resume-IsBlind (blind_ask n h) s a b = refl
resume-IsBlind (blind_look h) s a b = resume-IsBlind (h s) s a b
resume-IsBlind (blind_change f h) s a b = resume-IsBlind h (f s) a b
