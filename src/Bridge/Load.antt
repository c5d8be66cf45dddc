-- ===== src/Bridge/Load.antt =====
-- `eci_load` of arm/bridge_dispatch.c: what `eci_funcs_t` is filled with. What `dlopen` and `dlsym` give are
-- arguments, with 0 for NULL. The warnings on the terminal are left out.
pub mod Symbols
use eloquence.Base.{
  ℕ, ◌<◌, ◌≡◌, ◌↔◌, refl, ap, Bool, true, false, ◌||◌, List, [], ◌∷◌, ◌==◌, if◌then◌else◌, codes,
  same, minus_one, arith, Bool-cases, inl, inr,
}

-- The symbols in the order in which they are looked up.
abbrev pub symbols : List (List ℕ)
symbols =
    codes "eciNew"
    ∷ codes "eciNewEx"
    ∷ codes "eciGetAvailableLanguages"
    ∷ codes "eciDelete"
    ∷ codes "eciReset"
    ∷ codes "eciIsBeingReentered"
    ∷ codes "eciVersion"
    ∷ codes "eciProgStatus"
    ∷ codes "eciErrorMessage"
    ∷ codes "eciClearErrors"
    ∷ codes "eciTestPhrase"
    ∷ codes "eciSpeakText"
    ∷ codes "eciSpeakTextEx"
    ∷ codes "eciGetParam"
    ∷ codes "eciSetParam"
    ∷ codes "eciGetDefaultParam"
    ∷ codes "eciSetDefaultParam"
    ∷ codes "eciCopyVoice"
    ∷ codes "eciGetVoiceName"
    ∷ codes "eciSetVoiceName"
    ∷ codes "eciGetVoiceParam"
    ∷ codes "eciSetVoiceParam"
    ∷ codes "eciAddText"
    ∷ codes "eciInsertIndex"
    ∷ codes "eciSynthesize"
    ∷ codes "eciSynthesizeFile"
    ∷ codes "eciClearInput"
    ∷ codes "eciGeneratePhonemes"
    ∷ codes "eciGetIndex"
    ∷ codes "eciStop"
    ∷ codes "eciSpeaking"
    ∷ codes "eciSynchronize"
    ∷ codes "eciSetOutputBuffer"
    ∷ codes "eciSetOutputFilename"
    ∷ codes "eciSetOutputDevice"
    ∷ codes "eciPause"
    ∷ codes "eciRegisterCallback"
    ∷ codes "eciNewDict"
    ∷ codes "eciGetDict"
    ∷ codes "eciSetDict"
    ∷ codes "eciDeleteDict"
    ∷ codes "eciLoadDict"
    ∷ codes "eciSaveDict"
    ∷ codes "eciUpdateDict"
    ∷ codes "eciDictFindFirst"
    ∷ codes "eciDictFindNext"
    ∷ codes "eciDictLookup"
    ∷ codes "eciUpdateDictA"
    ∷ codes "eciDictFindFirstA"
    ∷ codes "eciDictFindNextA"
    ∷ codes "eciDictLookupA"
    ∷ codes "eciNewFilter"
    ∷ codes "eciDeleteFilter"
    ∷ codes "eciActivateFilter"
    ∷ codes "eciDeactivateFilter"
    ∷ codes "eciUpdateFilter"
    ∷ codes "eciGetFilteredText"
    ∷ []

-- The members of `eci_funcs_t`: the handle of the library, and the pointers by the names of their symbols.
pub record Loaded : Type 0 where
  pub handle : ℕ
  pub pointers : List (List ℕ × ℕ)

-- A pointer; 0 is what `memset` leaves.
unfoldable pub pointer : List ℕ → List (List ℕ × ℕ) → ℕ
pointer name [] = 0
pointer name ((n, p) ∷ rest) = if same name n then p else pointer name rest

-- `DLSYM` of one symbol after the other.
unfoldable pub load_symbols : (List ℕ → ℕ) → List (List ℕ) → List (List ℕ × ℕ)
load_symbols dlsym [] = []
load_symbols dlsym (n ∷ ns) = (n, dlsym n) ∷ load_symbols dlsym ns

-- What loading gives: the result, the members, and whether the library has been closed again.
pub record Loading : Type 0 where
  pub result : ℕ
  pub funcs : Loaded
  pub closed : Bool

-- The check for `eciNew` at the end.
abbrev with_new : Loaded → Loading
with_new f =
    if pointer (codes "eciNew") f.pointers == 0
    then record { result = minus_one; funcs = f; closed = true }
    else record { result = 0; funcs = f; closed = false }

unfoldable pub eci_load : (List ℕ → ℕ) → (ℕ → List ℕ → ℕ) → List ℕ → Loading
eci_load dlopen dlsym libpath =
    let handle = dlopen libpath in
    if handle == 0
    then record { result = minus_one; funcs = record { handle = 0; pointers = [] }; closed = false }
    else with_new (record { handle = handle; pointers = load_symbols (dlsym handle) symbols })
