-- ===== src/Observability/Profiles/Steps.antt =====
-- What each method of `DictionaryBuilder`, crates/doggy-dns-observability/src/profiles/convert.rs,
-- leaves of the tables, and what the index names that it returns.
use doggy_dns.Common.{refl, List, [], ◌∷◌, map}
use doggy_dns.Common.Text.{Text}
use doggy_dns.Observability.Tables.Keyed.{
  Grown-refl, index_of-Grown, index_of-IsKeyed, index_of_lem,
}
use doggy_dns.Observability.Profiles.{
  ProfileSymbol, DictionaryBuilder, string_row, function_row, line_row, same_text, same_function,
  intern, function, line_key_of,
}
use doggy_dns.Observability.Profiles.Described.{
  IsSmall, IsConsistent, IsGrown, IsGrown-refl, IsGrown-trans, IsGrown-IsSmall, NamesString,
  NamesFunction, NameLines, NamesString-grow, NamesFunction-grow,
}

module _ (d : DictionaryBuilder) (value : Text) where
  pub intern-IsGrown : IsGrown d (intern d value).0
  unfolding intern
  intern-IsGrown = record {
    strings = index_of-Grown same_text string_row d.strings value;
    functions = Grown-refl d.functions;
    locations = Grown-refl d.locations;
    stacks = Grown-refl d.stacks;
    attributes = Grown-refl d.attributes;
  }

  module _ (small : IsSmall (intern d value).0) (consistent : IsConsistent d) where
    pub intern-IsConsistent : IsConsistent (intern d value).0
    unfolding intern
    intern-IsConsistent = record {
      strings =
          index_of-IsKeyed same_text string_row d.strings value small.strings consistent.strings;
      functions = consistent.functions;
      locations = consistent.locations;
      stacks = consistent.stacks;
      attributes = consistent.attributes;
    }

    pub intern_lem : NamesString (intern d value).0 (intern d value).1 value
    unfolding intern
    intern_lem = index_of_lem same_text string_row d.strings value small.strings consistent.strings

-- The tables after the three strings of a symbol.
abbrev names_of : DictionaryBuilder → ProfileSymbol → DictionaryBuilder
names_of d symbol =
    (intern (intern (intern d symbol.name).0 symbol.system_name).0 symbol.filename).0

module _ (d : DictionaryBuilder) (symbol : ProfileSymbol) where
  names_of-IsGrown : IsGrown d (names_of d symbol)
  names_of-IsGrown =
      IsGrown-trans (intern-IsGrown d symbol.name)
        (IsGrown-trans (intern-IsGrown _ symbol.system_name) (intern-IsGrown _ symbol.filename))

  function-grows : IsGrown (names_of d symbol) (function d symbol).0
  unfolding function
  function-grows =
      let d3 = names_of d symbol in
      record {
        strings = Grown-refl d3.strings;
        functions = index_of-Grown same_function function_row d3.functions _;
        locations = Grown-refl d3.locations;
        stacks = Grown-refl d3.stacks;
        attributes = Grown-refl d3.attributes;
      }

  pub function-IsGrown : IsGrown d (function d symbol).0
  function-IsGrown = IsGrown-trans names_of-IsGrown function-grows

  module _ (small : IsSmall (names_of d symbol)) (consistent : IsConsistent d) where
    small_second : IsSmall (intern (intern d symbol.name).0 symbol.system_name).0
    small_second = IsGrown-IsSmall (intern-IsGrown _ symbol.filename) small

    consistent_first : IsConsistent (intern d symbol.name).0
    consistent_first =
        intern-IsConsistent d symbol.name
          (IsGrown-IsSmall (intern-IsGrown _ symbol.system_name) small_second) consistent

    consistent_second : IsConsistent (intern (intern d symbol.name).0 symbol.system_name).0
    consistent_second = intern-IsConsistent _ symbol.system_name small_second consistent_first

    names_of-IsConsistent : IsConsistent (names_of d symbol)
    names_of-IsConsistent = intern-IsConsistent _ symbol.filename small consistent_second

    -- The three strings in the tables after all of them.
    names_of_lem :
        (let d1 = intern d symbol.name in
          let d2 = intern d1.0 symbol.system_name in
          let d3 = intern d2.0 symbol.filename in
          NamesString d3.0 d1.1 symbol.name
          × NamesString d3.0 d2.1 symbol.system_name
          × NamesString d3.0 d3.1 symbol.filename)
    names_of_lem =
        let to_third = intern-IsGrown _ symbol.filename in
        (
          NamesString-grow (IsGrown-trans (intern-IsGrown _ symbol.system_name) to_third) _ _ (
              intern_lem d symbol.name
                (IsGrown-IsSmall (intern-IsGrown _ symbol.system_name) small_second) consistent),
          NamesString-grow to_third _ _
              (intern_lem _ symbol.system_name small_second consistent_first),
          intern_lem _ symbol.filename small consistent_second,
        )

  module _ (small : IsSmall (function d symbol).0) (consistent : IsConsistent d) where
    small_names : IsSmall (names_of d symbol)
    small_names = IsGrown-IsSmall function-grows small

    pub function-IsConsistent : IsConsistent (function d symbol).0
    unfolding function
    function-IsConsistent =
        let kept = names_of-IsConsistent small_names consistent in
        record {
          strings = kept.strings;
          functions =
              index_of-IsKeyed same_function function_row _ _ small.functions kept.functions;
          locations = kept.locations;
          stacks = kept.stacks;
          attributes = kept.attributes;
        }

    pub function_lem : NamesFunction (function d symbol).0 (function d symbol).1 symbol
    unfolding function
    function_lem =
        let kept = names_of-IsConsistent small_names consistent in
        let named = names_of_lem small_names consistent in
        (
          function_row _,
          index_of_lem same_function function_row _ _ small.functions kept.functions,
          named.0,
          named.1,
          named.2,
        )

pub line_key_of-IsGrown :
    (d : DictionaryBuilder) (symbols : List ProfileSymbol) → IsGrown d (line_key_of d symbols).0
unfolding line_key_of
line_key_of-IsGrown d [] = IsGrown-refl d
line_key_of-IsGrown d (symbol ∷ symbols) =
    IsGrown-trans (function-IsGrown d symbol) (line_key_of-IsGrown (function d symbol).0 symbols)

pub line_key_of_lem :
    (d : DictionaryBuilder) (symbols : List ProfileSymbol)
    → IsSmall (line_key_of d symbols).0
    → IsConsistent d
    → IsConsistent (line_key_of d symbols).0
      × NameLines (line_key_of d symbols).0 (map line_row (line_key_of d symbols).1) symbols
unfolding line_key_of
line_key_of_lem d [] small consistent = (consistent, tt)
line_key_of_lem d (symbol ∷ symbols) small consistent =
    let grown = line_key_of-IsGrown (function d symbol).0 symbols in
    let small_first = IsGrown-IsSmall grown small in
    let later =
      line_key_of_lem (function d symbol).0 symbols small
        (function-IsConsistent d symbol small_first consistent) in
    (
      later.0,
      (
        NamesFunction-grow grown _ symbol (function_lem d symbol small_first consistent),
        refl,
        later.1,
      ),
    )
