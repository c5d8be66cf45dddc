-- ===== src/Cli/Program/Balance.antt =====
-- Every engine instance that cli/eloquence.c creates is deleted again, on every path.
use eloquence.Base.{
  ℕ, ◌≡◌, refl, Bool, true, false, not, ◌&&◌, Option, none, some, List, [], ◌∷◌, ◌++◌, ◌==◌,
  if◌then◌else◌, if-keeps, Bool-cases, Option-cases, ◌∙◌, inl, inr, less,
}
use eloquence.Cli.Program.{
  Opt, Options, defaults, Parsed, exit, go_on, parse_options, Step, new, delete, version,
  copy_voice, set_voice_param, set_param, add_text, synthesize, synchronize, wrote, World,
  list_voices, voice_lines, settings, output, synthesis, speak, run, run_parsed, main, text_of,
  joined_text, given,
}

-- Whether there is an instance behind a step, where `h` is what `eciNew` gives: one at most is there at a time,
-- and all calls but `eciVersion` need one. `none` where a step has none to work on.
abbrev pub behind : ℕ → Bool → Step → Option Bool
behind h false new = some (not (h == 0))
behind h true new = none
behind h true delete = some false
behind h b version = some b
behind h b (wrote file bytes) = some b
behind h true _ = some true
behind h false _ = none

abbrev pub go : (Bool → Option Bool) → Option Bool → Option Bool
go f none = none
go f (some b) = f b

pub alive : ℕ → List Step → Bool → Option Bool
alive h [] b = some b
alive h (s ∷ ss) b = go (alive h ss) (behind h b s)

-- Steps that go on with the instance.
abbrev Keeps : ℕ → List Step → Type 0
Keeps h ss = alive h ss true ≡ some true

alive-append :
    (h : ℕ) (xs ys : List Step) (b : Bool) → alive h (xs ++ ys) b ≡ go (alive h ys) (alive h xs b)
unfolding alive
alive-append h [] ys b = refl
alive-append h (x ∷ xs) ys b = elim (Option-cases (behind h b x)) [
  | inl e ↦ rw e
  | inr (c, e) ↦ rw e (alive-append h xs ys c)
]

-- Behind steps that keep the instance stands the rest.
alive-behind : (h : ℕ) (xs ys : List Step) → Keeps h xs → alive h (xs ++ ys) true ≡ alive h ys true
alive-behind h xs ys k = rw (alive-append h xs ys true, k)

Keeps-append : (h : ℕ) (xs ys : List Step) → Keeps h xs → Keeps h ys → Keeps h (xs ++ ys)
Keeps-append h xs ys k l = alive-behind h xs ys k ∙ l

settings-Keeps : (h : ℕ) (o : Options) → Keeps h (settings o)
unfolding settings alive
settings-Keeps h o =
    let voice = if given o.voice && less o.voice 8 then copy_voice o.voice 0 ∷ [] else [] in
    let speed = if given o.speed then set_voice_param 0 6 o.speed ∷ [] else [] in
    let pitch = if given o.pitch then set_voice_param 0 2 o.pitch ∷ [] else [] in
    let rate = if given o.rate then set_param 5 o.rate ∷ [] else [] in
    Keeps-append h voice (speed ++ (pitch ++ rate))
      (if-keeps (Keeps h) (given o.voice && less o.voice 8) (copy_voice o.voice 0 ∷ []) [] refl
        refl)
      (Keeps-append h speed (pitch ++ rate)
        (if-keeps (Keeps h) (given o.speed) (set_voice_param 0 6 o.speed ∷ []) [] refl refl)
        (Keeps-append h pitch rate
          (if-keeps (Keeps h) (given o.pitch) (set_voice_param 0 2 o.pitch ∷ []) [] refl refl)
          (if-keeps (Keeps h) (given o.rate) (set_param 5 o.rate ∷ []) [] refl refl)))

output-Keeps : (h : ℕ) (o : Options) (w : World) → Keeps h (output o w)
unfolding output alive
output-Keeps h o w = if-keeps (Keeps h) (less 0 w.pcm.len && w.writable) _ [] refl refl

-- The instance is gone behind the steps.
abbrev Ends : ℕ → ℕ × List Step → Type 0
Ends h r = alive h r.1 true ≡ some false

synthesis-Ends : (h : ℕ) (o : Options) (w : World) (text : List ℕ) → Ends h (synthesis o w text)
unfolding synthesis alive
synthesis-Ends h o w text =
    if-keeps (Ends h) (not w.added) (1, add_text text ∷ delete ∷ []) _ refl
      (if-keeps (Ends h) (not w.synthesized) (1, add_text text ∷ synthesize ∷ delete ∷ []) _ refl
        (if-keeps (Ends h) (not w.synchronized)
          (1, add_text text ∷ synthesize ∷ synchronize ∷ delete ∷ []) _ refl
          (alive-behind h (output o w) (delete ∷ []) (output-Keeps h o w))))

-- From no instance to none.
abbrev Balanced : ℕ → ℕ × List Step → Type 0
Balanced h r = alive h r.1 false ≡ some false

there : (h : ℕ) → (h == 0) ≡ false → behind h false new ≡ some true
there h e = rw e

created :
    (h : ℕ) (ss : List Step)
    → (h == 0) ≡ false
    → alive h ss true ≡ some false
    → alive h (new ∷ ss) false ≡ some false
unfolding alive
created h ss e k = rw e k

missing : (h : ℕ) → (h == 0) ≡ true → alive h (new ∷ []) false ≡ some false
unfolding alive
missing h e = rw e

speak-Balanced :
    (o : Options) (w : World) (text : Option (List ℕ)) → Balanced w.handle (speak o w text)
unfolding speak alive
speak-Balanced o w none = refl
speak-Balanced o w (some text) = elim (Bool-cases (w.handle == 0)) [
  | inl b ↦ rw b (missing w.handle b)
  | inr b ↦ rw b (
      created w.handle _ b (
        alive-behind w.handle (settings o) _ (settings-Keeps w.handle o)
        ∙ synthesis-Ends w.handle o w text))
]

listed : (h : ℕ) → alive h voice_lines true ≡ some false
unfolding alive
listed h = refl

list_voices-Balanced : (w : World) → Balanced w.handle (list_voices w)
unfolding list_voices
list_voices-Balanced w = elim (Bool-cases (w.handle == 0)) [
  | inl b ↦ rw b (missing w.handle b)
  | inr b ↦ rw b (created w.handle voice_lines b (listed w.handle))
]

run-Balanced : (o : Options) (w : World) → Balanced w.handle (run o w)
unfolding run alive
run-Balanced o w =
    if-keeps (Balanced w.handle) o.show_version (0, version ∷ []) _ refl
      (if-keeps (Balanced w.handle) o.list_voices (list_voices w) _ (list_voices-Balanced w)
        (speak-Balanced o w (text_of (joined_text o.text o.input_file w.args) w)))

-- Whatever the options, the input and the answers of the engine are, the program makes its calls only on an
-- instance that `eciNew` has given and that is not deleted, and leaves no instance behind.
pub main-Balanced :
    (opts : List Opt) (w : World) → alive w.handle (main opts w).1 false ≡ some false
unfolding main alive
main-Balanced opts w = on (parse_options opts defaults)
  where
    on : (p : Parsed) → alive w.handle (run_parsed p w).1 false ≡ some false
    on (exit n) = refl
    on (go_on o) = run-Balanced o w
