-- ===== src/Mount/Names.antt =====
-- The names that mount/mount.go gives to a child's components.
use fastmcp.Prelude.{
  ℕ, suc, Text, txt, length, All, false, List, [], ◌∷◌, ◌++◌, none, some, ◌≡◌, ◌≢◌, refl, sym, ap,
  ◌∙◌, arith, text_eq_iff, ◌==◌,
}
use mathlib.Core.List.{append_cancel_left}
use fastmcp.Prelude.Dict.{Dict, get, put, get-put}
use fastmcp.Server.Template.{
  Piece, lit, var, push_char, compile_from, compile_uri_template, variable_at, names, assign,
  match_template,
}
use fastmcp.Server.Template.Matching.{Fits, match_template_captures}
use fastmcp.Server.Registry.{mem_text, IsNodup}
use fastmcp.Uri.Placeholders.{cut_at}
use fastmcp.Mount.{
  prefix_name, prefix_uri, expand_pieces, expand_template, styled, ResourcePrefixStyle, prefix_path,
  prefix_protocol,
}

-- Two names of a child under one prefix are the same only if they are the same name.
pub prefix_name_inj :
    (prefix a b sep : Text) → prefix_name prefix a sep ≡ prefix_name prefix b sep → a ≡ b
unfolding prefix_name
prefix_name_inj prefix a b sep h =
    append_cancel_left sep a b (append_cancel_left prefix (sep ++ a) (sep ++ b) h)

get-assign :
    (k : Text) (ns caps : List Text) (m : Dict Text)
    → mem_text k ns ≡ false
    → get k (assign ns caps m) ≡ get k m
unfolding mem_text
get-assign k [] caps m h = refl
get-assign k (n ∷ ns) [] m h = refl
get-assign k (n ∷ ns) (seg ∷ caps) m h =
    get-assign k ns caps (put n seg m) (ground arith) ∙ ground (arith, get-put n k seg m)

-- Expanding with what a match captured gives the matched text.
expand_pieces-assign :
    (ps : List Piece) (caps : List Text) (s : Text) (m : Dict Text)
    → Fits ps caps s
    → IsNodup (names ps)
    → expand_pieces ps (assign (names ps) caps m) ≡ s
unfolding expand_pieces
expand_pieces-assign [] [] s m fits d = sym fits
expand_pieces-assign [] (seg ∷ caps) s m fits d = absurd fits
expand_pieces-assign (lit t ∷ ps) caps s m (rest, e, fits) d =
    ap (λ x. t ++ x) (expand_pieces-assign ps caps rest m fits d) ∙ sym e
expand_pieces-assign (var name ∷ ps) [] s m fits d = absurd fits
expand_pieces-assign (var name ∷ ps) (seg ∷ caps) s m (rest, e, segment, whole, fits) d =
    let bound : get name (assign (names ps) caps (put name seg m)) ≡ some seg =
      get-assign name (names ps) caps (put name seg m) d.0
      ∙ ground (arith, get-put name name seg m, text_eq_iff name name) in
    rw bound
      (ap (λ x. seg ++ x) (expand_pieces-assign ps caps rest (put name seg m) fits d.1) ∙ sym e)

-- text before a template, with no opening brace
abbrev pub NoBrace : Text → Type 0
NoBrace = All (λ c. c ≢ b'{')

abbrev push_text : Text → List Piece → List Piece
push_text [] ps = ps
push_text (c ∷ u) ps = push_char c (push_text u ps)

compile_from-plain :
    (fuel c : ℕ) (s : Text)
    → c ≢ b'{'
    → compile_from (suc fuel) (c ∷ s) ≡ push_char c (compile_from fuel s)
unfolding compile_from
compile_from-plain fuel c s h =
    let plain : (c == b'{') ≡ false = ground arith in
    let here : variable_at (c ∷ s) ≡ none = rw plain in rw (here, compile_from)

compile-append :
    (u v : Text) → NoBrace u → compile_uri_template (u ++ v) ≡ push_text u (compile_uri_template v)
unfolding compile_uri_template
compile-append [] v h = refl
compile-append (c ∷ u) v h =
    compile_from-plain (length (u ++ v)) c (u ++ v) h.0 ∙ ap (push_char c) (compile-append u v h.1)

expand_pieces-push_char :
    (c : ℕ) (ps : List Piece) (m : Dict Text)
    → expand_pieces (push_char c ps) m ≡ c ∷ expand_pieces ps m
unfolding expand_pieces
expand_pieces-push_char c [] m = refl
expand_pieces-push_char c (lit t ∷ ps) m = refl
expand_pieces-push_char c (var name ∷ ps) m = refl

expand_pieces-push_text :
    (u : Text) (ps : List Piece) (m : Dict Text)
    → expand_pieces (push_text u ps) m ≡ u ++ expand_pieces ps m
expand_pieces-push_text [] ps m = refl
expand_pieces-push_text (c ∷ u) ps m =
    expand_pieces-push_char c (push_text u ps) m ∙ ap (λ x. c ∷ x) (expand_pieces-push_text u ps m)

names-push_char : (c : ℕ) (ps : List Piece) → names (push_char c ps) ≡ names ps
names-push_char c [] = refl
names-push_char c (lit t ∷ ps) = refl
names-push_char c (var name ∷ ps) = refl

names-push_text : (u : Text) (ps : List Piece) → names (push_text u ps) ≡ names ps
names-push_text [] ps = refl
names-push_text (c ∷ u) ps = names-push_char c (push_text u ps) ∙ names-push_text u ps

expand_template-append :
    (u v : Text) (m : Dict Text) → NoBrace u → expand_template (u ++ v) m ≡ u ++ expand_template v m
unfolding expand_template
expand_template-append u v m h =
    ap (λ ps. expand_pieces ps m) (compile-append u v h)
    ∙ expand_pieces-push_text u (compile_uri_template v) m

names-append :
    (u v : Text)
    → NoBrace u
    → names (compile_uri_template (u ++ v)) ≡ names (compile_uri_template v)
names-append u v h = ap names (compile-append u v h) ∙ names-push_text u (compile_uri_template v)

cut_at-scheme :
    (scheme rest : Text)
    → All (λ c. c ≢ b':') scheme
    → cut_at (txt "://") (scheme ++ (txt "://" ++ rest)) ≡ some (scheme, rest)
unfolding cut_at
cut_at-scheme [] rest h = refl
cut_at-scheme (c ∷ scheme) rest h =
    let plain : (c == b':') ≡ false = ground (arith, h.0) in
    rw plain (rw (cut_at-scheme scheme rest h.1))

-- a prefix and a scheme, with nothing that the template's expression or the marker could take
abbrev pub IsPlain : Text → Text → Type 0
IsPlain prefix scheme = NoBrace prefix × NoBrace scheme × All (λ c. c ≢ b':') scheme

expand_template-marker :
    (rest : Text) (m : Dict Text)
    → expand_template (txt "://" ++ rest) m ≡ txt "://" ++ expand_template rest m
expand_template-marker rest m = expand_template-append (txt "://") rest m (ground arith)

prefix_uri-scheme :
    (prefix scheme rest : Text) (style : ResourcePrefixStyle)
    → All (λ c. c ≢ b':') scheme
    → prefix_uri (scheme ++ (txt "://" ++ rest)) prefix style ≡ styled prefix style scheme rest
unfolding prefix_uri
prefix_uri-scheme prefix scheme rest style h = rw (cut_at-scheme scheme rest h, prefix_uri)

expand_template-scheme :
    (scheme rest : Text) (m : Dict Text)
    → NoBrace scheme
    → expand_template (scheme ++ (txt "://" ++ rest)) m
      ≡ scheme ++ (txt "://" ++ expand_template rest m)
expand_template-scheme scheme rest m h =
    expand_template-append scheme (txt "://" ++ rest) m h
    ∙ ap (λ x. scheme ++ x) (expand_template-marker rest m)

expand_template-styled :
    (prefix scheme rest : Text) (style : ResourcePrefixStyle) (m : Dict Text)
    → IsPlain prefix scheme
    → expand_template (styled prefix style scheme rest) m
      ≡ styled prefix style scheme (expand_template rest m)
expand_template-styled prefix scheme rest prefix_path m h =
    expand_template-scheme scheme (prefix ++ b'/' ∷ rest) m h.1
    ∙ ap (λ x. scheme ++ (txt "://" ++ x))
        (expand_template-append prefix (b'/' ∷ rest) m h.0
          ∙ ap (λ x. prefix ++ x) (expand_template-append (b'/' ∷ []) rest m (ground arith)))
expand_template-styled prefix scheme rest prefix_protocol m h =
    expand_template-append prefix (b'+' ∷ (scheme ++ (txt "://" ++ rest))) m h.0
    ∙ ap (λ x. prefix ++ x)
        (expand_template-append (b'+' ∷ []) (scheme ++ (txt "://" ++ rest)) m (ground arith)
          ∙ ap (λ x. b'+' ∷ x) (expand_template-scheme scheme rest m h.1))

expand_template-match :
    (tmpl uri : Text) (vars : Dict Text)
    → IsNodup (names (compile_uri_template tmpl))
    → match_template (compile_uri_template tmpl) uri ≡ some vars
    → expand_template tmpl vars ≡ uri
unfolding expand_template
expand_template-match tmpl uri vars d m =
    let (caps, fits, same) = match_template_captures (compile_uri_template tmpl) uri vars m in
    rw same (expand_pieces-assign (compile_uri_template tmpl) caps uri [] fits d)

-- A template of a child that has a plain scheme and distinct placeholders: if a URI matches the template
-- that the parent has for it, the URI that is read from the child, given the prefix in turn, is the URI
-- that was asked for.
pub prefix_uri-expand_template :
    (prefix scheme rest : Text) (style : ResourcePrefixStyle) (uri : Text) (vars : Dict Text)
    → IsPlain prefix scheme
    → IsNodup
        (names (compile_uri_template (prefix_uri (scheme ++ (txt "://" ++ rest)) prefix style)))
    → match_template
        (compile_uri_template (prefix_uri (scheme ++ (txt "://" ++ rest)) prefix style))
        uri
      ≡ some vars
    → prefix_uri (expand_template (scheme ++ (txt "://" ++ rest)) vars) prefix style ≡ uri
prefix_uri-expand_template prefix scheme rest style uri vars h d m =
    let tmpl = scheme ++ (txt "://" ++ rest) in
    ap (λ x. prefix_uri x prefix style) (expand_template-scheme scheme rest vars h.1)
    ∙ prefix_uri-scheme prefix scheme (expand_template rest vars) style h.2
    ∙ sym (expand_template-styled prefix scheme rest style vars h)
    ∙ ap (λ t. expand_template t vars) (sym (prefix_uri-scheme prefix scheme rest style h.2))
    ∙ expand_template-match (prefix_uri tmpl prefix style) uri vars d m
