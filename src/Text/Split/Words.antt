-- ===== src/Text/Split/Words.antt =====
-- `strings.Fields` on words with single spaces between them.
use argonaut.Text.Split.{emit, fields_from, fields, join}
use argonaut.Text.Trim.{space_width}
use argonaut.Prelude.{
  ℕ, ◌≤◌, ◌≡◌, ◌≢◌, refl, ap, ◌∙◌, List, [], ◌∷◌, ◌++◌, append-nil, append_assoc, Bytes, All, arith,
}

-- A printable ASCII byte that is not a space.
abbrev pub IsInk : ℕ → Type 0
IsInk c = (b'!' ≤ c) × (c ≤ b'~')

-- A word: one or more such bytes.
pub record IsWord (w : Bytes) : Type 0 where
  pub nonempty : w ≢ []
  pub ink : All IsInk w

space_width-ink : (c : ℕ) (s : Bytes) → IsInk c → space_width (c ∷ s) ≡ 0
unfolding space_width
space_width-ink c [] h = ground arith
space_width-ink c (d ∷ []) h = ground arith
space_width-ink c (d ∷ e ∷ s) h = ground arith

space_width-space : (s : Bytes) → space_width (b' ' ∷ s) ≡ 1
unfolding space_width
space_width-space s = refl

emit-nonempty : (w : Bytes) (ps : List Bytes) → w ≢ [] → emit w ps ≡ w ∷ ps
unfolding emit
emit-nonempty [] ps h = absurd (h refl)
emit-nonempty (c ∷ w) ps h = refl

fields_from-ink :
    (w cur rest : Bytes)
    → All IsInk w
    → fields_from 0 cur (w ++ rest) ≡ fields_from 0 (cur ++ w) rest
unfolding fields_from
fields_from-ink [] cur rest h = rw append-nil
fields_from-ink (c ∷ w) cur rest (hc, hw) =
    rw (space_width-ink c (w ++ rest) hc, fields_from)
      (fields_from-ink w (cur ++ c ∷ []) rest hw ∙ rw append_assoc)

fields_from-space :
    (cur rest : Bytes) → fields_from 0 cur (b' ' ∷ rest) ≡ emit cur (fields_from 0 [] rest)
unfolding fields_from
fields_from-space cur rest = rw (space_width-space rest, fields_from)

fields_from-word : (w : Bytes) → IsWord w → fields_from 0 [] w ≡ w ∷ []
fields_from-word w h =
    rw append-nil at (fields_from-ink w [] [] h.ink)
    ∙ unfold fields_from in emit-nonempty w [] h.nonempty

pub fields-join : (ws : List Bytes) → All IsWord ws → fields (join b' ' ws) ≡ ws
unfolding fields join
fields-join [] h = unfold emit in refl
fields-join (w ∷ []) (hw, _) = fields_from-word w hw
fields-join (w ∷ v ∷ ws) (hw, hs) =
    fields_from-ink w [] (b' ' ∷ join b' ' (v ∷ ws)) hw.ink
    ∙ fields_from-space w (join b' ' (v ∷ ws))
    ∙ emit-nonempty w _ hw.nonempty
    ∙ ap (◌∷◌ w) (fields-join (v ∷ ws) hs)
