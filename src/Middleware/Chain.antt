-- ===== src/Middleware/Chain.antt =====
-- Laws of chains, of middleware/middleware.go.
use mathlib.Core.Path.{fun_ext}
use mathlib.Core.List.{reverse, reverse-append, reverse-cons}
use fastmcp.Prelude.{
  ℕ, zero, suc, replicate, Slot, within, txt, text_eq, Bool, true, false, List, [], ◌∷◌, ◌++◌,
  Option, some, ◌≡◌, refl, ap, ◌∙◌, if◌then◌else◌, Bool-cases, inl, inr,
}
use fastmcp.Middleware.{
  MiddlewareContext, Handler, Hook, Middleware, base, func, operation, wrap, wrap_all, or_silent,
  chain_then, terminal, dispatch_through, from_context,
}
use fastmcp.Session.{World}
use fastmcp.Server.{Server, Context}
use fastmcp.Server.Codec.{Codec}
use fastmcp.Server.Dispatch.{dispatch}

if_both {ℓ} : {A : Type ℓ} (b : Bool) (x : A) → (if b then x else x) ≡ x
if_both true x = refl
if_both false x = refl

module _ {S : Type 0} where
  operation-base : (mc : MiddlewareContext) (next : Handler S) → operation base next mc ≡ next mc
  unfolding operation
  operation-base mc next = simp if_both

  wrap_all-append :
      (h : Handler S) (xs ys : List (Middleware S))
      → wrap_all h (xs ++ ys) ≡ wrap_all (wrap_all h xs) ys
  unfolding wrap_all
  wrap_all-append h [] ys = refl
  wrap_all-append h (m ∷ ms) ys = wrap_all-append (wrap m h) ms ys

  -- The first middleware of a chain is the outermost, and adding middlewares to a chain puts them
  -- innermost: composing two lists is composing their chains.
  pub chain_order :
      (m : Middleware S) (ms more : List (Middleware S)) (final : Option (Handler S))
      → (chain_then (m ∷ ms) final ≡ wrap m (chain_then ms final))
        × (chain_then (ms ++ more) final ≡ chain_then ms (some (chain_then more final)))
  unfolding chain_then
  chain_order m ms more final = (
    rw (reverse-cons m ms)
        (wrap_all-append (or_silent final) (reverse ms) (m ∷ []) ∙ unfold wrap_all in refl),
    rw (reverse-append ms more) (wrap_all-append (or_silent final) (reverse more) (reverse ms)),
  )

  -- A middleware made by Func sees every request, whatever its method, with the rest of the chain as
  -- its continuation; one that overrides OnCallTool alone sees the calls of tools and no other
  -- request.
  pub overridden_hooks :
      (f : Hook S) (next : Handler S) (mc : MiddlewareContext)
      → (wrap (func f) next mc ≡ f mc next)
        × (wrap (record base { on_call_tool = f }) next mc
            ≡ (if text_eq mc.method (txt "tools/call") then f mc next else next mc))
  unfolding wrap operation
  overridden_hooks f next mc = (
    ap (f mc) (fun_ext (λ mc. operation-base mc next)),
    elim (Bool-cases (text_eq mc.method (txt "tools/call"))) [
      | inl e ↦ rw e
      | inr e ↦ rw e (simp if_both)
    ],
  )

  pub chain_then-func :
      (f : Hook S) (ms : List (Middleware S)) (final : Option (Handler S)) (mc : MiddlewareContext)
      → chain_then (func f ∷ ms) final mc ≡ f mc (chain_then ms final)
  chain_then-func f ms final mc =
      ap (λ h. h mc) (chain_order (func f) ms [] final).0
      ∙ (overridden_hooks f (chain_then ms final) mc).0

  wrap-base : (h : Handler S) → wrap base h ≡ h
  unfolding wrap
  wrap-base h = fun_ext (λ mc. operation-base mc h)

  chain_then-base : (n : ℕ) (h : Handler S) → chain_then (replicate n base) (some h) ≡ h
  chain_then-base zero h = unfold chain_then wrap_all in refl
  chain_then-base (suc n) h =
      (chain_order base (replicate n base) [] (some h)).0
      ∙ ap (wrap base) (chain_then-base n h)
      ∙ wrap-base h

module _ {S W : Type 0} (world : Slot S (World W)) (lib : Codec) (server : Server W) where
  -- A dispatcher with no middleware, or with middlewares that only continue the chain, answers as the
  -- server does, with the same effect on its world.
  pub dispatch-base :
      (n : ℕ) (c : Context)
      → dispatch_through world lib server (replicate n base) c
        ≡ within world (dispatch lib server c)
  unfolding dispatch_through chain_then terminal from_context
  dispatch-base n c = ap (λ h. h (from_context c)) (chain_then-base n (terminal world lib server))
