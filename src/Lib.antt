-- ===== src/Lib.antt =====
-- A model of xtl, the C++ library of headers under include/xtd, with theorems on its own core: the
-- concurrent hash map and the locks of include/xtd/concurrent, the parser of include/xtd/parse.hpp
-- with its grammars, the b-tree of include/xtd/btree.hpp, the cache of include/xtd/lru_cache.hpp,
-- the string operations of include/xtd/string.hpp, and the Porter stemmer of include/xtd/nlp. The b-tree
-- reads its pages through the cache, which its model leaves out; the other parts do not call each other.
--
-- Prelude: names of the standard library, Boolean tests, lists, arrays as functions, text as codes.
--
-- HashMap: concurrent/hash_map.hpp as one thread runs it. A map is a trie of 16-way arrays, one
--   level for each nibble of the key, the lowest nibble first; `HashMap V n` has `n + 1` levels.
--   `insert`, `exists`, `remove` and `index` (`operator[]`) carry the names of the code, and `index` has
--   what `value_type()` and `new value_type` give as parameters; a function whose name ends in
--   `_leaf` is the one of the specialization for the last nibble.
--   HashMap/Cursor has the iterator, whose vector of nibbles the scans `_begin`, `_back`, `_next` and
--   `_prev` read and write, one entry for each level. HashMap/Lookup gives a map its meaning, a
--   partial function on the keys below 16^(n+1); HashMap/Scan, Slots, Iteration and Wrap follow the
--   scans. The loops over slots take the number of slots left as an argument and recurse on it.
--
-- Threads: what the locks share, namely a memory with the places of n threads, a step of one of them,
--   the states reached by any interleaving, and a number of moves of one thread alone.
-- RwLock, SpinLock, RecursiveLock: rw_lock.hpp, spin_lock.hpp and recursive_spin_lock.hpp of
--   concurrent/. `Pc` is a thread's place in the code with its local variables, `Move` has one
--   constructor for each atomic access and outcome. Words are `uint32_t` and `size_t` of 64 bits,
--   wrapped round as in the code. The wait policies and `scope_locker` keep no state of the lock.
--
-- Parse: include/xtd/parse.hpp. A rule is a value of `Rule`, named as the C++ template that it is an
--   instance of; `parse` is the member of that name, and takes the text that the iterator `begin`
--   points at and returns the tree with the text at the new `begin`. The repetitions recurse on the
--   length of the text: each round that goes on has consumed something. Parse/Chars has the context
--   and the tests on characters, Parse/Match and Spelling what a tree says of the text, Parse/Peg the
--   rules as parsing expressions, and Parse/Uri the grammar of include/xtd/grammars/RFC3986.hpp, on
--   which Parse/Octet has a theorem, as Parse/ByteRange has on RFC 7233. Parse/Abnf, LanguageTag,
--   LanguageRange, Http, HttpSemantics, HttpConditional, HttpRange, Mail and News are the grammars of RFC 5234, 5646, 4647, 7230, 7231, 7232,
--   7233, 5322 and 5536 in include/xtd/grammars, less the rules that contain comments, which refer to
--   themselves. The matcher of a regular expression is a parameter of its rule.
--
-- BTree: include/xtd/btree.hpp. `Store` is the file, a function from the index of a page to the page,
--   with the fields of page 0, the header; a page is free, a leaf or a branch, and holds the entries below
--   its count. An operation is a function of the store that returns a result and a store, or `none` where
--   a page is read as one of another kind. BTree/Insert, Find, Erase and Access have the operations; a
--   recursion into the tree takes the height as the bound of its depth, the binary search the number of
--   entries (it is `none` where they are used up before it ends), and the loops over leaves the number of pages. Keys are numbers. The proofs follow the tree
--   that the pages stand for (BTree/Shape, Kids, Cut), the free pages (FreeList) and the links of the
--   leaves (Chain); BTree/Represents says which list of entries a file stands for. Erasure and
--   the iterator are definitions with runs.
--
-- LruCache: include/xtd/lru_cache.hpp, the deque of keys and values. The loader and the comparison of
--   keys are parameters; the size is positive.
--
-- Text: include/xtd/string.hpp, the operations of `xstring` on the characters of one string. Positions
--   are indices as in the code; `split` has one more round than the string has characters, and each
--   round but the last passes a delimiter; `remove` has one more than the string has
--   characters, and each but the last erases one. Both are `none` where the rounds are used up.
--   `iswspace` is a parameter.
--
-- Porter: nlp/porter_stemmer.hpp. `Stemmer` holds the fields `b`, `k`, `k0` and `j`; the buffer is a
--   function from indices to codes, and indices count from one before the word, since the code reads
--   `b[k - 1]` where `k` may be `k0`. The loops of `m` and `vowelinstem` recurse on the number of
--   letters left. Porter/Steps has the five steps, `stem` and `operator()`.
--
-- Tests: runs on small inputs.
--
-- Not modelled: the hash map under several threads and its destructor, the parser's error messages,
-- grammars that refer to themselves, and the parts of the library that wrap the operating system,
-- sockets, SQLite, COM and logs.
pub mod BTree
pub mod HashMap
pub mod LruCache
pub mod Parse
pub mod Porter
pub mod Prelude
pub mod RecursiveLock
pub mod RwLock
pub mod SpinLock
pub mod Tests
pub mod Text
pub mod Threads
