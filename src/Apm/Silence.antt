-- ===== src/Apm/Silence.antt =====
-- The handlers for the silence operator in apm.c.
use php_apm.Common.{
  Bool, true, false, Option, none, some, List, [], ◌∷◌, ◌≡◌, refl, ap, ◌∙◌, is_some, if◌then◌else◌,
}
use php_apm.World.{opcode_handler_called, Log}
use php_apm.Globals.{Globals, Hook, Run, pure, ◌>>◌}
use php_apm.Apm.{call_original, silence}

-- The opcodes of a script, `true` for the one that begins to silence.
unfoldable pub run_silence : List Bool → Run (Unit {0})
run_silence [] = pure tt
run_silence (b ∷ bs) = silence b >> run_silence bs

abbrev pub last_of : Bool → List Bool → Bool
last_of b [] = b
last_of b (x ∷ xs) = last_of x xs

-- The calls of another extension's handlers, the latest first.
abbrev pub forwarded : Bool → Bool → List Bool → Log → Log
forwarded begin end [] l = l
forwarded begin end (true ∷ bs) l =
    forwarded begin end bs (if begin then opcode_handler_called true ∷ l else l)
forwarded begin end (false ∷ bs) l =
    forwarded begin end bs (if end then opcode_handler_called false ∷ l else l)

call_original_lem :
    (o : Option Hook) (b : Bool) (g : Globals)
    → call_original o b g
      ≡ some (tt, record g { log = if is_some o then opcode_handler_called b ∷ g.log else g.log })
call_original_lem none b g = refl
call_original_lem (some h) b g = refl

-- Over any sequence of the two opcodes: the handlers return, the handlers of another extension are
-- called for each opcode in its order, and the script counts as silenced just where the last opcode
-- began to silence, however many that began before it have not ended.
pub run_silence_lem :
    (bs : List Bool) (g : Globals)
    → run_silence bs g
      ≡ some (
        tt,
        record g {
          currently_silenced = last_of g.currently_silenced bs;
          log =
              forwarded
                (is_some g.orig_begin_silence_handler)
                (is_some g.orig_end_silence_handler)
                bs
                g.log;
        },
      )
unfolding run_silence silence
run_silence_lem [] g = refl
run_silence_lem (true ∷ bs) g =
    ap
      (λ (r : Option (Unit {0} × Globals)). elim r [ none ↦ none | some (a, h) ↦ run_silence bs h ])
      (call_original_lem g.orig_begin_silence_handler true (record g { currently_silenced = true }))
    ∙ run_silence_lem bs _
run_silence_lem (false ∷ bs) g =
    ap
      (λ (r : Option (Unit {0} × Globals)). elim r [ none ↦ none | some (a, h) ↦ run_silence bs h ])
      (call_original_lem g.orig_end_silence_handler false (record g { currently_silenced = false }))
    ∙ run_silence_lem bs _
