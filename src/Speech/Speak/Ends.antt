-- ===== src/Speech/Speak/Ends.antt =====
-- Every request to speak is reported to the dispatcher as ended once, and last.
use eloquence.Base.{
  ℕ, ◌≡◌, refl, ap, Bool, true, false, All, Option, none, some, List, [], ◌∷◌, ◌++◌, ◌==◌,
  if◌then◌else◌, if-keeps,
}
use eloquence.Speech.Ssml.{strip_ssml}
use eloquence.Speech.Settings.{State}
use eloquence.Speech.Speak.{
  Action, speak_error, event_end, event_stop, speak_ok, clear_input, add_text, is_blank, added,
  stripped, module_speak_sync, voice_actions, copy_voice,
}

-- The reports that end a request.
abbrev pub ends : Action → Bool
ends speak_error = true
ends event_end = true
ends event_stop = true
ends _ = false

-- The last action ends the request, and no other does.
pub record EndsOnce (actions : List Action) : Type 0 where
  pub body : List Action
  pub last : Action
  pub is_ : actions ≡ body ++ (last ∷ [])
  pub at_last : ends last ≡ true
  pub before : All (λ a. ends a ≡ false) body

EndsOnce-cons :
    (a : Action) (as_ : List Action) → ends a ≡ false → EndsOnce as_ → EndsOnce (a ∷ as_)
EndsOnce-cons a as_ h e = record {
  body = a ∷ e.body;
  last = e.last;
  is_ = ap (λ t. a ∷ t) e.is_;
  at_last = e.at_last;
  before = (h, e.before);
}

EndsOnce-end : (a : Action) → ends a ≡ true → EndsOnce (a ∷ [])
EndsOnce-end a h = record { body = []; last = a; is_ = refl; at_last = h; before = tt }

added-EndsOnce : (stopped later : Bool) → EndsOnce (added stopped later)
added-EndsOnce true later = EndsOnce-end event_stop refl
added-EndsOnce false true =
    EndsOnce-cons _ _ refl (EndsOnce-cons _ _ refl (EndsOnce-cons _ _ refl (EndsOnce-end _ refl)))
added-EndsOnce false false =
    EndsOnce-cons _ _ refl (EndsOnce-cons _ _ refl (EndsOnce-cons _ _ refl (EndsOnce-end _ refl)))

stripped-EndsOnce :
    (text : Option (List ℕ)) (stopped later : Bool) → EndsOnce (stripped text stopped later)
stripped-EndsOnce none stopped later = EndsOnce-end event_end refl
stripped-EndsOnce (some t) stopped later =
    if-keeps EndsOnce (is_blank t) (event_end ∷ []) (add_text t ∷ added stopped later)
      (EndsOnce-end event_end refl) (EndsOnce-cons _ _ refl (added-EndsOnce stopped later))

-- Whatever the text is, whether memory is left, and whenever it is stopped, a request to speak is answered by
-- exactly one report that ends it, as the last action.
pub module_speak_sync-EndsOnce :
    (has_memory stopped later : Bool) (data_ : List ℕ) (s : State)
    → EndsOnce (module_speak_sync has_memory stopped later data_ s).0
unfolding module_speak_sync
module_speak_sync-EndsOnce has_memory stopped later data_ s =
    let text = if has_memory then strip_ssml data_ else none in
    let rest = stripped text stopped later in
    EndsOnce-cons speak_ok _ refl (
      if-keeps EndsOnce (s.eci == 0) (speak_error ∷ [])
        (clear_input ∷ copy_voice s.current_voice 0 ∷ (voice_actions s ++ rest))
        (EndsOnce-end speak_error refl)
        (EndsOnce-cons _ _ refl (
          EndsOnce-cons _ _ refl (
            EndsOnce-cons _ _ refl (
              EndsOnce-cons _ _ refl
                (EndsOnce-cons _ _ refl (stripped-EndsOnce text stopped later)))))))
