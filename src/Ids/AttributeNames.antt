-- ===== src/Ids/AttributeNames.antt =====
-- ATTRIBUTE_NAMES of angr_ghidra_core/ghidra_wire/ids.py, in two halves.
use angr_ghidra_core.Prelude.{ℕ, List, [], ◌∷◌}
use Prim.Native.String.{String}

unfoldable pub attribute_names_low : List (ℕ × String)
attribute_names_low =
    (1, "XMLcontent")
    ∷ (2, "align")
    ∷ (3, "bigendian")
    ∷ (4, "constructor")
    ∷ (5, "destructor")
    ∷ (6, "extrapop")
    ∷ (7, "format")
    ∷ (8, "hiddenretparm")
    ∷ (9, "id")
    ∷ (10, "index")
    ∷ (11, "indirectstorage")
    ∷ (12, "metatype")
    ∷ (13, "model")
    ∷ (14, "name")
    ∷ (15, "namelock")
    ∷ (16, "offset")
    ∷ (17, "readonly")
    ∷ (18, "ref")
    ∷ (19, "size")
    ∷ (20, "space")
    ∷ (21, "thisptr")
    ∷ (22, "type")
    ∷ (23, "typelock")
    ∷ (24, "val")
    ∷ (25, "value")
    ∷ (26, "wordsize")
    ∷ (27, "first")
    ∷ (28, "last")
    ∷ (29, "uniq")
    ∷ (30, "addrtied")
    ∷ (31, "grp")
    ∷ (32, "input")
    ∷ (33, "persists")
    ∷ (34, "unaff")
    ∷ (35, "blockref")
    ∷ (36, "close")
    ∷ (37, "color")
    ∷ (38, "indent")
    ∷ (39, "off")
    ∷ (40, "open")
    ∷ (41, "opref")
    ∷ (42, "varref")
    ∷ (43, "code")
    ∷ (44, "contain")
    ∷ (45, "defaultspace")
    ∷ (46, "uniqbase")
    ∷ (47, "alignment")
    ∷ (48, "arraysize")
    ∷ (49, "char")
    ∷ (50, "core")
    ∷ (51, "enum")
    ∷ (52, "incomplete")
    ∷ (53, "enumsize")
    ∷ (54, "intsize")
    ∷ (55, "longsize")
    ∷ (56, "opaquestring")
    ∷ (57, "signed")
    ∷ (58, "structalign")
    ∷ (59, "utf")
    ∷ (60, "varlength")
    ∷ (61, "cat")
    ∷ (62, "field")
    ∷ (63, "merge")
    ∷ (64, "scopeidbyname")
    ∷ (65, "volatile")
    ∷ (66, "class")
    ∷ (67, "repref")
    ∷ (68, "symref")
    ∷ (69, "trunc")
    ∷ (70, "dynamic")
    ∷ (71, "incidentalcopy")
    ∷ (72, "inject")
    ∷ (73, "paramshift")
    ∷ (74, "targetop")
    ∷ (75, "altindex")
    ∷ (76, "depth")
    ∷ []

unfoldable pub attribute_names_high : List (ℕ × String)
attribute_names_high =
    (77, "end")
    ∷ (78, "opcode")
    ∷ (79, "rev")
    ∷ (80, "a")
    ∷ (81, "b")
    ∷ (82, "length")
    ∷ (83, "tag")
    ∷ (84, "nocode")
    ∷ (85, "farpointer")
    ∷ (86, "inputop")
    ∷ (87, "outputop")
    ∷ (88, "userop")
    ∷ (89, "base")
    ∷ (90, "deadcodedelay")
    ∷ (91, "delay")
    ∷ (92, "logicalsize")
    ∷ (93, "physical")
    ∷ (94, "piece")
    ∷ (103, "adjustvma")
    ∷ (104, "enable")
    ∷ (105, "group")
    ∷ (106, "growth")
    ∷ (107, "key")
    ∷ (108, "loadersymbols")
    ∷ (109, "parent")
    ∷ (110, "register")
    ∷ (111, "reversejustify")
    ∷ (112, "signext")
    ∷ (113, "style")
    ∷ (114, "custom")
    ∷ (115, "dotdotdot")
    ∷ (116, "extension")
    ∷ (117, "hasthis")
    ∷ (118, "inline")
    ∷ (119, "killedbycall")
    ∷ (120, "maxsize")
    ∷ (121, "minsize")
    ∷ (122, "modellock")
    ∷ (123, "noreturn")
    ∷ (124, "pointermax")
    ∷ (125, "separatefloat")
    ∷ (126, "stackshift")
    ∷ (127, "strategy")
    ∷ (128, "thisbeforeretpointer")
    ∷ (129, "voidlock")
    ∷ (130, "vector_lane_sizes")
    ∷ (131, "label")
    ∷ (132, "num")
    ∷ (133, "lock")
    ∷ (134, "main")
    ∷ (135, "arch")
    ∷ (136, "deprecated")
    ∷ (137, "endian")
    ∷ (138, "processor")
    ∷ (139, "processorspec")
    ∷ (140, "slafile")
    ∷ (141, "spec")
    ∷ (142, "target")
    ∷ (143, "variant")
    ∷ (144, "version")
    ∷ (145, "baddata")
    ∷ (146, "hash")
    ∷ (147, "unimpl")
    ∷ (148, "address")
    ∷ (149, "storage")
    ∷ (150, "stackspill")
    ∷ (151, "sizes")
    ∷ (152, "backfill")
    ∷ (153, "maxprimitives")
    ∷ (154, "reversesignif")
    ∷ (155, "matchsize")
    ∷ (156, "afterbytes")
    ∷ (157, "afterstorage")
    ∷ (158, "fillalternate")
    ∷ (159, "XMLunknown")
    ∷ []
