-- ===== src/History/Redis/Keys.antt =====
-- core/memory.py: the keys of `RedisRunHistory` do not run into each other where the session ids
-- have no colon.
use langgraph_agent_stack.Prelude.{
  ◌==◌, mem, Text, text, text_beq, ◌≡◌, refl, ◌∙◌, false, ◌&&◌, [], ◌∷◌, ◌++◌, arith, text_eq,
  nat_eq,
}
use langgraph_agent_stack.Prelude.Dict
use langgraph_agent_stack.History.Redis.{session_key, session_pack_key}

abbrev pub Colonless : Text → Type 0
Colonless s = mem 58 s ≡ false

beq-append_colon :
    (a b rest rest' : Text)
    → Colonless a
    → Colonless b
    → text_beq (a ++ 58 ∷ rest) (b ++ 58 ∷ rest') ≡ text_beq a b && text_beq rest rest'
beq-append_colon [] [] rest rest' ha hb = refl
beq-append_colon [] (d ∷ b) rest rest' ha hb = ground arith
beq-append_colon (c ∷ a) [] rest rest' ha hb = ground arith
beq-append_colon (c ∷ a) (d ∷ b) rest rest' ha hb = ground (arith, beq-append_colon a b rest rest')

-- Keys of two pairs are equal only if the pairs are.
pub session_pack_key-beq :
    (a b p q : Text)
    → Colonless a
    → Colonless b
    → (session_pack_key a p == session_pack_key b q) ≡ ((a == b) && (p == q))
session_pack_key-beq a b p q ha hb =
    beq-append_colon a b (text "pack:" ++ p) (text "pack:" ++ q) ha hb

beq-Colonless : (a b rest : Text) → Colonless a → text_beq a (b ++ 58 ∷ rest) ≡ false
beq-Colonless [] [] rest h = refl
beq-Colonless [] (d ∷ b) rest h = refl
beq-Colonless (c ∷ a) [] rest h = ground arith
beq-Colonless (c ∷ a) (d ∷ b) rest h = ground (arith, beq-Colonless a b rest)

pub session_key-pack :
    (a b p : Text) → Colonless a → (session_key a == session_pack_key b p) ≡ false
session_key-pack a b p h = beq-Colonless a b (text "pack:" ++ p) h

pub pack_key-session :
    (a b p : Text) → Colonless a → (session_pack_key b p == session_key a) ≡ false
pack_key-session a b p h =
    Dict.==-sym (session_pack_key b p) (session_key a) ∙ session_key-pack a b p h
