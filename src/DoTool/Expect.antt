-- ===== src/DoTool/Expect.antt =====
-- `expectScreen`, `expectRegion` and the checks of regions in vncdotool/client.py. A frame is the screen as it is rendered
-- when `commitUpdate` has called the deferred of a refresh back; that may take it more updates than one, and requests of its
-- own (DoTool/Refresh), which are not counted here.
use awc_remote.Base.{
  ℕ, ◌<◌, ◌≡◌, refl, ap, ◌∙◌, Bool, true, false, not, ◌||◌, Option, none, some, List, [], ◌∷◌, ◌++◌,
  length, replicate, if◌then◌else◌, arith,
}
use awc_remote.Base.Int.{ℤ, pos, negsuc, add_ℕ, lt_ℤ}

-- (left, top, right, bottom), as `Image.crop` takes it.
pub record Box : Type 0 where
  pub left : ℤ
  pub top : ℤ
  pub right : ℤ
  pub bottom : ℤ

-- `(x, y, x + w, y + h)` of an image's size.
abbrev pub box_at : ℤ → ℤ → ℕ → ℕ → Box
box_at x y w h = record { left = x; top = y; right = add_ℕ x w; bottom = add_ℕ y h }

-- The test of `_requireOnScreen`, which raises `RegionError` where it is false.
unfoldable pub on_screen : Box → ℕ → ℕ → Bool
on_screen b width height = not (
    lt_ℤ b.left (pos 0)
    || lt_ℤ b.top (pos 0)
    || lt_ℤ (pos width) b.right
    || lt_ℤ (pos height) b.bottom)

-- What `imagematch.matches` says of the box on a frame, and the frame's size.
pub record Judge (Frame : Type 0) : Type 0 where
  pub matches : Frame → Bool
  pub frame_width : Frame → ℕ
  pub frame_height : Frame → ℕ

-- What a call of `_expectCompare` comes to: the region is off the screen, the expectation is met, or a refresh is asked
-- for, incremental or not.
pub data Verdict : Type 0 where
  off_screen met : Verdict
  ask_refresh : Bool → Verdict

-- `_fuzz` and `_blur`; `tolerance` is `fuzz_for_format`, where the pixel format has one.
abbrev pub or_zero : Option ℕ → ℕ
or_zero none = 0
or_zero (some n) = n

unfoldable pub effective_fuzz : Option ℕ → Option ℕ → Option ℕ → ℕ
effective_fuzz (some asked) of_client tolerance = asked
effective_fuzz none (some of_client) tolerance = of_client
effective_fuzz none none tolerance = or_zero tolerance

abbrev pub effective_blur : Option ℕ → ℕ → ℕ
effective_blur none of_client = of_client
effective_blur (some asked) of_client = asked

module _ {Frame : Type 0} (judge : Judge Frame) (box : Box) where
  -- `_expectCompare`, with the size of the desktop for the time before there is a screen.
  unfoldable pub expect_compare : ℕ → ℕ → Option Frame → Verdict
  unfolding on_screen
  expect_compare width height none =
      if on_screen box width height then ask_refresh false else off_screen
  expect_compare width height (some f) =
      if on_screen box (judge.frame_width f) (judge.frame_height f)
      then (if judge.matches f then met else ask_refresh true)
      else off_screen

  -- The refreshes that `_expectCompare` asks for over the frames with which its refreshes end, and the last verdict.
  abbrev pub after_verdict : Verdict → List Bool × Verdict → List Bool × Verdict
  after_verdict off_screen r = ([], off_screen)
  after_verdict met r = ([], met)
  after_verdict (ask_refresh incremental) r = (incremental ∷ r.0, r.1)

  unfoldable pub expect_run : ℕ → ℕ → Option Frame → List Frame → List Bool × Verdict
  unfolding expect_compare
  expect_run width height screen [] =
      let v = expect_compare width height screen in after_verdict v ([], v)
  expect_run width height screen (f ∷ frames) =
      let rest = expect_run width height (some f) frames in
      after_verdict (expect_compare width height screen) rest

  -- Frames that hold the region and do not match.
  abbrev pub AllMiss : List Frame → Type 0
  AllMiss [] = Unit
  AllMiss (f ∷ frames) =
      (on_screen box (judge.frame_width f) (judge.frame_height f) ≡ true)
      × (judge.matches f ≡ false)
      × AllMiss frames

  module _ (width height : ℕ) where
    hit_at :
        (f : Frame) (after : List Frame)
        → on_screen box (judge.frame_width f) (judge.frame_height f) ≡ true
        → judge.matches f ≡ true
        → expect_run width height (some f) after ≡ ([], met)
    unfolding expect_run expect_compare
    hit_at f [] h m = rw (h, m)
    hit_at f (g ∷ after) h m = rw (h, m)

    miss_at :
        (g f : Frame) (frames : List Frame)
        → on_screen box (judge.frame_width g) (judge.frame_height g) ≡ true
        → judge.matches g ≡ false
        → expect_run width height (some g) (f ∷ frames)
          ≡ after_verdict (ask_refresh true) (expect_run width height (some f) frames)
    unfolding expect_run expect_compare
    miss_at g f frames h m = rw (h, m)

    missed :
        (g : Frame) (before : List Frame) (f : Frame) (after : List Frame)
        → AllMiss (g ∷ before)
        → on_screen box (judge.frame_width f) (judge.frame_height f) ≡ true
        → judge.matches f ≡ true
        → expect_run width height (some g) (before ++ (f ∷ after))
          ≡ (true ∷ replicate (length before) true, met)
    missed g [] f after (h, n, k) i m =
        miss_at g f after h n ∙ ap (after_verdict (ask_refresh true)) (hit_at f after i m)
    missed g (e ∷ before) f after (h, n, k) i m =
        miss_at g e (before ++ (f ∷ after)) h n
        ∙ ap (after_verdict (ask_refresh true)) (missed e before f after k i m)

    -- A client without a screen, whose desktop holds the region of an expected image, and whose refreshes end with frames that hold it too, meets
    -- the expectation at the first of them whose region matches, whatever comes after: `_expectCompare` itself has asked for a refresh of the whole
    -- screen once, and for each frame before that one for an incremental refresh.
    pub expect_run-first_match :
        (before : List Frame) (f : Frame) (after : List Frame)
        → on_screen box width height ≡ true
        → AllMiss before
        → on_screen box (judge.frame_width f) (judge.frame_height f) ≡ true
        → judge.matches f ≡ true
        → expect_run width height none (before ++ (f ∷ after))
          ≡ (false ∷ replicate (length before) true, met)
    unfolding expect_run expect_compare
    expect_run-first_match [] f after o k i m =
        rw (o) (ap (after_verdict (ask_refresh false)) (hit_at f after i m))
    expect_run-first_match (g ∷ before) f after o k i m =
        rw (o) (ap (after_verdict (ask_refresh false)) (missed g before f after k i m))

below :
    (i low high : ℤ) (n : ℕ)
    → lt_ℤ low (pos 0) ≡ false
    → lt_ℤ (pos n) high ≡ false
    → lt_ℤ i low ≡ false
    → lt_ℤ i high ≡ true
    → (k : ℕ) × (i ≡ pos k) × (k < n)
below (pos i) (pos low) (pos high) n a b c d = (i, refl, ground arith)
below (pos i) (pos low) (negsuc high) n a b c d = absurd cc
below (pos i) (negsuc low) high n a b c d = absurd cc
below (negsuc i) (pos low) high n a b c d = absurd cc
below (negsuc i) (negsuc low) high n a b c d = absurd cc

none_of :
    (a b c d : Bool)
    → not (a || b || c || d) ≡ true
    → (a ≡ false) × (b ≡ false) × (c ≡ false) × (d ≡ false)
none_of false false false false h = (refl, refl, refl, refl)
none_of true b c d h = absurd cc
none_of false true c d h = absurd cc
none_of false false true d h = absurd cc
none_of false false false true h = absurd cc

-- Each column of a region that passes for one on the screen is a column of the screen, and each row one of its rows.
pub on_screen-columns :
    (b : Box) (width height : ℕ) (i : ℤ)
    → on_screen b width height ≡ true
    → (lt_ℤ i b.left ≡ false → lt_ℤ i b.right ≡ true → (k : ℕ) × (i ≡ pos k) × (k < width))
      × (lt_ℤ i b.top ≡ false → lt_ℤ i b.bottom ≡ true → (k : ℕ) × (i ≡ pos k) × (k < height))
unfolding on_screen
on_screen-columns b width height i h =
    let n = none_of (lt_ℤ b.left (pos 0)) _ _ _ h in
    (
      λ l r. below i b.left b.right width n.0 n.2 l r,
      λ t u. below i b.top b.bottom height n.1 n.3 t u,
    )
