-- ===== src/Runtime/Munge/Tables.antt =====
-- The tables of compiler+runtime/src/cpp/jank/runtime/core/munge.cpp.
use jank.Prelude.{ℕ, List, [], ◌∷◌, Bytes, codes}

abbrev pub munge_chars : List (ℕ × Bytes)
munge_chars =
    (b'-', codes "_")
    ∷ (b':', codes "_COLON_")
    ∷ (b'+', codes "_PLUS_")
    ∷ (b'>', codes "_GT_")
    ∷ (b'<', codes "_LT_")
    ∷ (b'=', codes "_EQ_")
    ∷ (b'~', codes "_TILDE_")
    ∷ (b'!', codes "_BANG_")
    ∷ (b'@', codes "_CIRCA_")
    ∷ (b'#', codes "_SHARP_")
    ∷ (39, codes "_SQUOTE_")
    ∷ (34, codes "_DQUOTE_")
    ∷ (b'%', codes "_PERC_")
    ∷ (b'^', codes "_CARET_")
    ∷ (b'&', codes "_AMP_")
    ∷ (b'*', codes "_STAR_")
    ∷ (b'|', codes "_BAR_")
    ∷ (b'{', codes "_LBRACE_")
    ∷ (b'}', codes "_RBRACE_")
    ∷ (b'[', codes "_LBRACK_")
    ∷ (b']', codes "_RBRACK_")
    ∷ (b'(', codes "_LPAREN_")
    ∷ (b')', codes "_RPAREN_")
    ∷ (b'/', codes "_SLASH_")
    ∷ (92, codes "_BSLASH_")
    ∷ (b'?', codes "_QMARK_")
    ∷ []

-- The order matters: a longer pattern comes first.
abbrev pub demunge_chars : List (Bytes × ℕ)
demunge_chars =
    (codes "_LBRACE_", b'{')
    ∷ (codes "_RBRACE_", b'}')
    ∷ (codes "_LBRACK_", b'[')
    ∷ (codes "_RBRACK_", b']')
    ∷ (codes "_LPAREN_", b'(')
    ∷ (codes "_RPAREN_", b')')
    ∷ (codes "_BSLASH_", 92)
    ∷ (codes "_SQUOTE_", 39)
    ∷ (codes "_DQUOTE_", 34)
    ∷ (codes "_QMARK_", b'?')
    ∷ (codes "_COLON_", b':')
    ∷ (codes "_TILDE_", b'~')
    ∷ (codes "_CIRCA_", b'@')
    ∷ (codes "_SHARP_", b'#')
    ∷ (codes "_CARET_", b'^')
    ∷ (codes "_SLASH_", b'/')
    ∷ (codes "_PERC_", b'%')
    ∷ (codes "_PLUS_", b'+')
    ∷ (codes "_BANG_", b'!')
    ∷ (codes "_STAR_", b'*')
    ∷ (codes "_AMP_", b'&')
    ∷ (codes "_BAR_", b'|')
    ∷ (codes "_GT_", b'>')
    ∷ (codes "_LT_", b'<')
    ∷ (codes "_EQ_", b'=')
    ∷ (codes "_", b'-')
    ∷ []

abbrev pub cpp_keywords : List Bytes
cpp_keywords =
    codes "alignas"
    ∷ codes "alignof"
    ∷ codes "and"
    ∷ codes "and_eq"
    ∷ codes "asm"
    ∷ codes "atomic_cancel"
    ∷ codes "atomic_commit"
    ∷ codes "atomic_noexcept"
    ∷ codes "auto"
    ∷ codes "bitand"
    ∷ codes "bitor"
    ∷ codes "bool"
    ∷ codes "break"
    ∷ codes "case"
    ∷ codes "catch"
    ∷ codes "char"
    ∷ codes "char8_t"
    ∷ codes "char16_t"
    ∷ codes "char32_t"
    ∷ codes "class"
    ∷ codes "compl"
    ∷ codes "concept"
    ∷ codes "const"
    ∷ codes "consteval"
    ∷ codes "constexpr"
    ∷ codes "constinit"
    ∷ codes "const_cast"
    ∷ codes "continue"
    ∷ codes "co_await"
    ∷ codes "co_return"
    ∷ codes "co_yield"
    ∷ codes "decltype"
    ∷ codes "default"
    ∷ codes "delete"
    ∷ codes "do"
    ∷ codes "double"
    ∷ codes "dynamic_cast"
    ∷ codes "else"
    ∷ codes "enum"
    ∷ codes "explicit"
    ∷ codes "export"
    ∷ codes "extern"
    ∷ codes "false"
    ∷ codes "float"
    ∷ codes "for"
    ∷ codes "friend"
    ∷ codes "goto"
    ∷ codes "if"
    ∷ codes "inline"
    ∷ codes "int"
    ∷ codes "long"
    ∷ codes "mutable"
    ∷ codes "namespace"
    ∷ codes "new"
    ∷ codes "noexcept"
    ∷ codes "not"
    ∷ codes "not_eq"
    ∷ codes "nullptr"
    ∷ codes "operator"
    ∷ codes "or"
    ∷ codes "or_eq"
    ∷ codes "private"
    ∷ codes "protected"
    ∷ codes "public"
    ∷ codes "reflexpr"
    ∷ codes "register"
    ∷ codes "reinterpret_cast"
    ∷ codes "requires"
    ∷ codes "return"
    ∷ codes "short"
    ∷ codes "signed"
    ∷ codes "sizeof"
    ∷ codes "static"
    ∷ codes "static_assert"
    ∷ codes "static_cast"
    ∷ codes "struct"
    ∷ codes "switch"
    ∷ codes "synchronized"
    ∷ codes "template"
    ∷ codes "this"
    ∷ codes "thread_local"
    ∷ codes "throw"
    ∷ codes "true"
    ∷ codes "try"
    ∷ codes "typedef"
    ∷ codes "typeid"
    ∷ codes "typename"
    ∷ codes "union"
    ∷ codes "unsigned"
    ∷ codes "using"
    ∷ codes "virtual"
    ∷ codes "void"
    ∷ codes "volatile"
    ∷ codes "wchar_t"
    ∷ codes "while"
    ∷ codes "xor"
    ∷ codes "xor_eq"
    ∷ []

abbrev pub munged_cpp_keywords : List Bytes
munged_cpp_keywords =
    codes "alignas__"
    ∷ codes "alignof__"
    ∷ codes "and__"
    ∷ codes "and_eq__"
    ∷ codes "asm__"
    ∷ codes "atomic_cancel__"
    ∷ codes "atomic_commit__"
    ∷ codes "atomic_noexcept__"
    ∷ codes "auto__"
    ∷ codes "bitand__"
    ∷ codes "bitor__"
    ∷ codes "bool__"
    ∷ codes "break__"
    ∷ codes "case__"
    ∷ codes "catch__"
    ∷ codes "char__"
    ∷ codes "char8_t__"
    ∷ codes "char16_t__"
    ∷ codes "char32_t__"
    ∷ codes "class__"
    ∷ codes "compl__"
    ∷ codes "concept__"
    ∷ codes "const__"
    ∷ codes "consteval__"
    ∷ codes "constexpr__"
    ∷ codes "constinit__"
    ∷ codes "const_cast__"
    ∷ codes "continue__"
    ∷ codes "co_await__"
    ∷ codes "co_return__"
    ∷ codes "co_yield__"
    ∷ codes "decltype__"
    ∷ codes "default__"
    ∷ codes "delete__"
    ∷ codes "do__"
    ∷ codes "double__"
    ∷ codes "dynamic_cast__"
    ∷ codes "else__"
    ∷ codes "enum__"
    ∷ codes "explicit__"
    ∷ codes "export__"
    ∷ codes "extern__"
    ∷ codes "false__"
    ∷ codes "float__"
    ∷ codes "for__"
    ∷ codes "friend__"
    ∷ codes "goto__"
    ∷ codes "if__"
    ∷ codes "inline__"
    ∷ codes "int__"
    ∷ codes "long__"
    ∷ codes "mutable__"
    ∷ codes "namespace__"
    ∷ codes "new__"
    ∷ codes "noexcept__"
    ∷ codes "not__"
    ∷ codes "not_eq__"
    ∷ codes "nullptr__"
    ∷ codes "operator__"
    ∷ codes "or__"
    ∷ codes "or_eq__"
    ∷ codes "private__"
    ∷ codes "protected__"
    ∷ codes "public__"
    ∷ codes "reflexpr__"
    ∷ codes "register__"
    ∷ codes "reinterpret_cast__"
    ∷ codes "requires__"
    ∷ codes "return__"
    ∷ codes "short__"
    ∷ codes "signed__"
    ∷ codes "sizeof__"
    ∷ codes "static__"
    ∷ codes "static_assert__"
    ∷ codes "static_cast__"
    ∷ codes "struct__"
    ∷ codes "switch__"
    ∷ codes "synchronized__"
    ∷ codes "template__"
    ∷ codes "this__"
    ∷ codes "thread_local__"
    ∷ codes "throw__"
    ∷ codes "true__"
    ∷ codes "try__"
    ∷ codes "typedef__"
    ∷ codes "typeid__"
    ∷ codes "typename__"
    ∷ codes "union__"
    ∷ codes "unsigned__"
    ∷ codes "using__"
    ∷ codes "virtual__"
    ∷ codes "void__"
    ∷ codes "volatile__"
    ∷ codes "wchar_t__"
    ∷ codes "while__"
    ∷ codes "xor__"
    ∷ codes "xor_eq__"
    ∷ []
