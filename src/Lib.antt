-- ===== src/Lib.antt =====
-- CDragon, the news site of IlliaFransua/CDragon (paths from the repository's root): an HTTP server
-- on sockets, a router, sessions, a template renderer, and tables on MySQL.
--
-- How the parts interact. `HttpServer::start` (CDragon/src/http/http_server.cpp) accepts one
-- connection at a time, reads a head and a body, parses an `HttpRequest`, lets
-- `Router::handleRequest` choose a handler, and sends what the handler leaves in the
-- `HttpResponse`. Handlers ask the `SessionRepository` who is logged in, call the tables, and
-- render pages.
--
-- Which file models which part:
--   Http/Request (children Trim, Head, Query, RoundTrip): CDragon/include/http_request.h and
--     CDragon/src/http/http_request.cpp; `parse_raw_meta_data` is `parseRawMetaData`, and so on.
--   Http/Response (Length, Wire): CDragon/include/http_response.h,
--     CDragon/src/http/http_response.cpp.
--   Http/Server (Framing, Stalls, EndToEnd): CDragon/src/http/http_server.cpp. A connection is the
--     list of what its calls of `read` return; `serve_connection` is one round of the loop.
--   Http/Stream and Http/Frame: `istringstream` with `getline` and `ignore`, and the blank line
--     that ends a head.
--   Session (Lifetime, History, Ids): CDragon/include/session_repository.h.
--   Regex (Language, Complete): the part of `std::regex` that the program uses, with its
--     backtracking order.
--   Router (Dispatch, Pattern, Registration, Captures, Apart, Plain): CDragon/include/router.h and
--     CDragon/src/router/router.cpp. A handler is a function of request, response and shared state.
--   Template (Cycles, Variables, Filling): CDragon/include/template_renderer.h.
--   Database (Binding): CDragon/include/database.h. A table's method is an `Operation`: its
--     statement, its parameters, and what it makes of the rows; `run` sends it.
--   Models: CDragon/src/models/include. Article, Role and User are the records; Articles (Filter,
--     Valid), Roles, Users, Categories, Keywords, Tags, ArticleCategories, ArticleKeywords,
--     ArticleTags and UserRoles the tables, the smaller ones with their record; Bound and Lookup
--     state theorems about them.
--   Routes: CDragon/src/router/routes.cpp. Routes itself, Permissions and Access have the session
--     and permission checks and the handlers that publish, delete and archive an article. Act is
--     the monad of the other handlers, a function of response, sessions, database and files that
--     may throw or never return; what was changed before an exception stays. Login (Entry) has the
--     log-in, Saving (Allowed, Labels, Draft, Filed, Created, Relabelled, Revised, Edited) the
--     creator and the editor of articles, Dashboard the pages with a card for each article, Listing
--     (Misread) the handlers that answer with JSON, Shown (Leaving, Filled) the pages for readers,
--     Setup (Sites, Reached) what `setupRoutes` registers. Text (Utf8, Spans) is `truncateUTF8` and
--     `renderSpanText`. Pages (Markup, Menus, Streams, Scopes, Coverage) has the loops that lay out
--     articles; a scope of the source is a list of pieces, markup and fields of articles. Values
--     names the calls of the JSON library. Upload (Parts) is `saveFilesFromBody`, which no handler
--     calls; nor does one call `parseJsonArray`, which stands in Values.
--   Prelude: shared names, lists, texts as lists of bytes, association lists for `unordered_map`
--     (the list is the order of iteration, which the standard leaves open), exceptions, `stoi` and
--     `to_string`. Examples: the theorems at concrete inputs.
--
-- State is passed explicitly, exceptions are the `throws` of `Result`. The JSON library, the MySQL
-- connector, bcrypt, base64, the clock, the random draws and the order in which the entries of a page
-- are iterated are arguments; one request has one time.
--
-- Fuel. `replace_from` has the length of the text as fuel, and a placeholder is never empty, so
-- each round takes a byte at least. `replace_cycles` counts rounds and gives `none` when they are
-- used up, because the loop of the source need not end. `scopes` has the number of articles as
-- fuel, and each round takes an article at least. `save_parts` has the length of the body, and each
-- round takes a boundary. A `read` with no result left is one that does not return.
--
-- Where C++ leaves the order of evaluation open, as among the arguments of a constructor, columns
-- are read from left to right. Integers that the program only stores and prints are unbounded;
-- `stoi` has the bounds of `int`.
--
-- Not modelled: socket set-up and console output, `print` of the records, `connect` of the
-- database, CDragon/src/main.cpp and CDragon/src/framework.cpp, which start the server with the
-- routes, CDragon/PasswordHasher, the views, and the copies of other projects under CDragon/lib.

pub mod Prelude
pub mod Http
pub mod Session
pub mod Regex
pub mod Router
pub mod Template
pub mod Database
pub mod Models
pub mod Routes
pub mod Examples
