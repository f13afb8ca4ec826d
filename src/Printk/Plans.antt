-- ===== src/Printk/Plans.antt =====
-- Plans put together: one after another, and character by character.
use vega_os.Base.{ℕ, ◌≡◌, refl, sym, ap, ◌∙◌, List, [], ◌∷◌}
use vega_os.Outcome.{Outcome, ◌>>=◌, >>=-assoc, >>=-cong}
use vega_os.Pty.{Console, pty_putstr}
use vega_os.Pty.Text.{pty_putstr-++}
use vega_os.Log.{Arg, codes}
use vega_os.Printk.{VaList, Printer, vprintk, printk_default_fg}
use vega_os.Printk.Render.{Plan, done, broken, piece, render, draw, AreWords}
use vega_os.Printk.Refine.{console_of, vprintk-render}

-- One plan after another.
abbrev pub followed_by : Plan → Plan → Plan
followed_by done q = q
followed_by broken q = broken
followed_by (piece text color p) q = piece text color (followed_by p q)

pub draw-followed_by : (p q : Plan) (c : Console) → draw (followed_by p q) c ≡ (draw p c >>= draw q)
unfolding draw
draw-followed_by done q c = refl
draw-followed_by broken q c = refl
draw-followed_by (piece text color p) q c =
    >>=-cong (pty_putstr text color c) (draw (followed_by p q)) (λ x. draw p x >>= draw q)
      (λ x. draw-followed_by p q x)
    ∙ sym (>>=-assoc (pty_putstr text color c) (draw p) (draw q))

pty_nothing :
    (color : ℕ) (c : Console) (next : Console → Outcome Console)
    → next c ≡ (pty_putstr [] color c >>= next)
unfolding pty_putstr
pty_nothing color c next = refl

-- A text as one piece for each of its characters is the text as one piece.
abbrev pub spelled : List ℕ → ℕ → Plan → Plan
spelled [] color rest = rest
spelled (c ∷ text) color rest = piece (c ∷ []) color (spelled text color rest)

pub draw-spelled :
    (text : List ℕ) (color : ℕ) (rest : Plan) (c : Console)
    → draw (spelled text color rest) c ≡ draw (piece text color rest) c
unfolding draw
draw-spelled [] color rest c = pty_nothing color c (draw rest)
draw-spelled (d ∷ text) color rest c =
    >>=-cong (pty_putstr (d ∷ []) color c) (draw (spelled text color rest))
      (λ x. pty_putstr text color x >>= draw rest) (λ x. draw-spelled text color rest x)
    ∙ sym (>>=-assoc (pty_putstr (d ∷ []) color c) (pty_putstr text color) (draw rest))
    ∙ ap (λ (o : Outcome Console). o >>= draw rest) (sym (pty_putstr-++ (d ∷ []) text color c))

pub draw-piece :
    (text : List ℕ) (color : ℕ) (p q : Plan)
    → ((c : Console) → draw p c ≡ draw q c)
    → (c : Console) → draw (piece text color p) c ≡ draw (piece text color q) c
unfolding draw
draw-piece text color p q same c = >>=-cong (pty_putstr text color c) (draw p) (draw q) same

pub followed_by-done : (p : Plan) → followed_by p done ≡ p
followed_by-done done = refl
followed_by-done broken = refl
followed_by-done (piece text color p) = ap (piece text color) (followed_by-done p)

-- A word in white brackets and in a colour of its own, and a space.
abbrev pub bracket : (List ℕ → ℕ → Plan → Plan) → List ℕ → ℕ → Plan → Plan
bracket part word color rest =
    part (codes "[") 0xffffff
      (part word color (part (codes " ]") 0xffffff (part (codes " ") printk_default_fg rest)))

pub draw-spelled_piece :
    (text : List ℕ) (color : ℕ) (p q : Plan)
    → ((c : Console) → draw p c ≡ draw q c)
    → (c : Console) → draw (spelled text color p) c ≡ draw (piece text color q) c
draw-spelled_piece text color p q same c =
    draw-spelled text color p c ∙ draw-piece text color p q same c

pub draw-bracket :
    (word : List ℕ) (color : ℕ) (p q : Plan)
    → ((c : Console) → draw p c ≡ draw q c)
    → (c : Console) → draw (bracket spelled word color p) c ≡ draw (bracket piece word color q) c
draw-bracket word color p q same =
    let space = draw-spelled_piece (codes " ") printk_default_fg p q same in
    let close = draw-spelled_piece (codes " ]") 0xffffff _ _ space in
    let inside = draw-spelled_piece word color _ _ close in
    draw-spelled_piece (codes "[") 0xffffff _ _ inside

-- What vprintk prints, and then something that draws a plan.
pub vprintk-followed_by :
    (va : VaList) (fmt : List ℕ) (args : List Arg) (s : Printer) (next : Printer → Outcome Printer)
    (q : Plan)
    → AreWords args
    → ((t : Printer) → (next t >>= console_of) ≡ draw q t.console)
    → (vprintk va fmt args s >>= next >>= console_of)
      ≡ draw (followed_by (render va fmt args printk_default_fg) q) s.console
vprintk-followed_by va fmt args s next q words same =
    let first = vprintk va fmt args s in
    let p = render va fmt args printk_default_fg in
    >>=-assoc first next console_of
    ∙ >>=-cong first (λ t. next t >>= console_of) (λ t. console_of t >>= draw q) same
    ∙ sym (>>=-assoc first console_of (draw q))
    ∙ ap (λ (o : Outcome Console). o >>= draw q) (vprintk-render va fmt args s words)
    ∙ sym (draw-followed_by p q s.console)
