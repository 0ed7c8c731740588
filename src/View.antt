-- ===== src/View.antt =====
-- view/: the page that shows a plan, of which the graph is modelled.
pub mod Graph
