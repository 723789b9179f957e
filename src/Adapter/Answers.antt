-- ===== src/Adapter/Answers.antt =====
-- What src/adapters/litellm_adapter.py makes of an answer.
use litellm_control_plane.Common.{
  String, Bool, true, false, Option, none, some, ◌≡◌, refl, Bool-cases, inl, inr, arith, eqb,
  if◌then◌else◌,
}
use litellm_control_plane.Process.{Request}
use litellm_control_plane.World.{World, Error, returned, raised, ◌>>=◌, pure, raise}
use litellm_control_plane.Adapter.{Answer, Body, LiteLlmAdapter, key_of, body_of, json_of}

-- The key that an answer to `/key/generate` brings.
abbrev pub brought : Answer → Option String
brought Answer.broken = none
brought (Answer.response status_code Body.not_json) = none
brought (Answer.response status_code (Body.json key)) = if eqb status_code 200 then key else none

-- A proxy took an update.
abbrev pub accepts : Answer → Bool
accepts Answer.broken = false
accepts (Answer.response status_code Body.not_json) = false
accepts (Answer.response status_code (Body.json key)) = eqb status_code 200

module _ (proxies : World → Request → Answer) (adapter : LiteLlmAdapter) where
  pub brings :
      (failure key : String) (a : Answer) (w : World)
      → brought a ≡ some key
      → (body_of proxies adapter failure a >>= key_of) w ≡ (returned key, w)
  unfolding body_of ◌>>=◌ pure raise
  brings failure key Answer.broken w h = cc
  brings failure key (Answer.response code Body.not_json) w h = cc
  brings failure key (Answer.response code (Body.json none)) w h = ground arith
  brings failure key (Answer.response code (Body.json (some k))) w h =
      elim (Bool-cases (eqb code 200)) [
        | inl ok ↦ let same : k ≡ key = ground arith in rw (ok, same) refl
        | inr bad ↦ ground arith
      ]

  pub brings_none :
      (failure : String) (a : Answer) (w : World)
      → brought a ≡ none
      → (e : Error) × ((body_of proxies adapter failure a >>= key_of) w ≡ (raised e, w))
  unfolding body_of ◌>>=◌ pure raise
  brings_none failure Answer.broken w h = (_, refl)
  brings_none failure (Answer.response code Body.not_json) w h = elim (Bool-cases (eqb code 200)) [
    | inl ok ↦ rw ok (_, refl)
    | inr bad ↦ rw bad (_, refl)
  ]
  brings_none failure (Answer.response code (Body.json none)) w h =
      elim (Bool-cases (eqb code 200)) [ inl ok ↦ rw ok (_, refl) | inr bad ↦ rw bad (_, refl) ]
  brings_none failure (Answer.response code (Body.json (some k))) w h =
      elim (Bool-cases (eqb code 200)) [ inl ok ↦ ground arith | inr bad ↦ rw bad (_, refl) ]

  pub takes :
      (failure : String) (a : Answer) (w : World)
      → accepts a ≡ true
      → (body_of proxies adapter failure a >>= json_of) w ≡ (returned tt, w)
  unfolding body_of ◌>>=◌ pure raise
  takes failure Answer.broken w h = cc
  takes failure (Answer.response code Body.not_json) w h = cc
  takes failure (Answer.response code (Body.json key)) w h = rw h refl

  pub refuses :
      (failure : String) (a : Answer) (w : World)
      → accepts a ≡ false
      → (e : Error) × ((body_of proxies adapter failure a >>= json_of) w ≡ (raised e, w))
  unfolding body_of ◌>>=◌ pure raise
  refuses failure Answer.broken w h = (_, refl)
  refuses failure (Answer.response code Body.not_json) w h = elim (Bool-cases (eqb code 200)) [
    | inl ok ↦ rw ok (_, refl)
    | inr bad ↦ rw bad (_, refl)
  ]
  refuses failure (Answer.response code (Body.json key)) w h = rw h (_, refl)
