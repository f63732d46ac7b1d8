-- ===== src/Video/Injector.antt =====
-- SEIInjector.py: the capture time of a frame is kept by its pts before the encoder and put in front
-- of the encoded frame after it. Buffers come and go as values; the replacement of the buffer pointer
-- in the probe's info, which is a workaround for a binding, is the returned buffer.
use v3xctrl.Base.{
  ℕ, Bool, true, ◌≡◌, ◌≢◌, ◌∙◌, Option, none, some, List, [], ◌∷◌, refl, ◌++◌, arith, if◌then◌else◌,
  nat_eq,
}
use v3xctrl.Base.Dict.{Dict, get, put, pop, get-put, get-pop, get-put_self, get-pop_self}
use v3xctrl.Base.Bytes.{Bytes, pos}
use v3xctrl.Video.Sei.{build_sei_nal, parse_sei_nal}
use v3xctrl.Video.Sei.RoundTrip.{parse-build_sei_nal}

pub record Buffer : Type 0 where
  pub pts : ℕ
  pub dts : ℕ
  pub duration : ℕ
  pub offset : ℕ
  pub bytes : Bytes

-- `_pending`, from the pts to the time in microseconds
abbrev pub Pending : Type 0
Pending = Dict ℕ ℕ

unfoldable pub on_pre_encode : ℕ → ℕ → Pending → Pending
on_pre_encode time_us pts pending = put pts time_us pending

-- The flag says that `buffer.map` succeeds. `none` is the struct.error of build_sei_nal.
unfoldable pub on_post_encode : Bool → Buffer → Pending → Option (Pending × Buffer)
on_post_encode mappable buffer pending = elim (get buffer.pts pending) [
  | none ↦ some (pending, buffer)
  | some timestamp_us ↦ elim (build_sei_nal (pos timestamp_us)) [
    | none ↦ none
    | some sei_bytes ↦ some (
      pop buffer.pts pending,
      if mappable then record buffer { bytes = sei_bytes ++ buffer.bytes } else buffer,
    )
  ]
]

-- What other frames do meanwhile: they enter the encoder, or leave it, with their own pts.
pub data Passage : Type 0 where
  entered : ℕ → ℕ → Passage
  left : Bool → Buffer → Passage

abbrev pub pts_of : Passage → ℕ
pts_of (entered time_us pts) = pts
pts_of (left mappable buffer) = buffer.pts

-- The pending times after it; the exception of build_sei_nal comes after the entry was popped.
unfoldable pub pass : Passage → Pending → Pending
unfolding on_pre_encode on_post_encode
pass (entered time_us pts) pending = on_pre_encode time_us pts pending
pass (left mappable buffer) pending = elim (on_post_encode mappable buffer pending) [
  | none ↦ pop buffer.pts pending
  | some (rest, out) ↦ rest
]

unfoldable pub pass_all : List Passage → Pending → Pending
pass_all [] pending = pending
pass_all (x ∷ xs) pending = pass_all xs (pass x pending)

abbrev pub AreOthers : ℕ → List Passage → Type 0
AreOthers pts [] = Unit
AreOthers pts (x ∷ xs) = (pts_of x ≢ pts) × AreOthers pts xs

get-pass :
    (pts : ℕ) (x : Passage) (pending : Pending)
    → pts_of x ≢ pts
    → get pts (pass x pending) ≡ get pts pending
unfolding pass on_pre_encode on_post_encode
get-pass pts (entered time_us other) pending n =
    ground (arith, get-put other pts time_us pending, nat_eq.same_iff other pts)
get-pass pts (left mappable b) pending n =
    ground (arith, get-pop b.pts pts pending, nat_eq.same_iff b.pts pts)

get-pass_all :
    (pts : ℕ) (xs : List Passage) (pending : Pending)
    → AreOthers pts xs
    → get pts (pass_all xs pending) ≡ get pts pending
unfolding pass_all
get-pass_all pts [] pending o = refl
get-pass_all pts (x ∷ xs) pending o =
    get-pass_all pts xs (pass x pending) o.1 ∙ get-pass pts x pending o.0

-- A frame that enters the encoder at a time that fits and leaves it under the same pts, in a buffer
-- that can be mapped, carries that time, whatever frames with other pts enter and leave in between: the
-- buffer that goes on keeps its pts, a parse of its bytes gives the time, and the entry is gone.
pub post-pre_encode :
    (time_us : ℕ) (nal : Bytes) (buffer : Buffer) (pending : Pending) (between : List Passage)
    → build_sei_nal (pos time_us) ≡ some nal
    → AreOthers buffer.pts between
    → (p : Pending) × (b : Buffer) × (on_post_encode true buffer
          (pass_all between (on_pre_encode time_us buffer.pts pending))
        ≡ some (p, b))
      × (b.pts ≡ buffer.pts)
      × (parse_sei_nal b.bytes ≡ some (pos time_us))
      × (get buffer.pts p ≡ none)
unfolding on_post_encode
post-pre_encode time_us nal buffer pending between h o =
    let waiting = pass_all between (on_pre_encode time_us buffer.pts pending) in
    let kept : get buffer.pts waiting ≡ some time_us =
      get-pass_all buffer.pts between (on_pre_encode time_us buffer.pts pending) o
      ∙ (unfold on_pre_encode in get-put_self buffer.pts time_us pending) in
    (
      pop buffer.pts waiting,
      record buffer { bytes = nal ++ buffer.bytes },
      ground (arith, h, kept),
      refl,
      parse-build_sei_nal (pos time_us) nal buffer.bytes h,
      get-pop_self buffer.pts waiting,
    )
