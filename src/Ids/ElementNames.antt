-- ===== src/Ids/ElementNames.antt =====
-- ELEMENT_NAMES of angr_ghidra_core/ghidra_wire/ids.py, in two halves.
use angr_ghidra_core.Prelude.{ℕ, List, [], ◌∷◌}
use Prim.Native.String.{String}

unfoldable pub element_names_low : List (ℕ × String)
element_names_low =
    (1, "data")
    ∷ (2, "input")
    ∷ (3, "off")
    ∷ (4, "output")
    ∷ (5, "returnaddress")
    ∷ (6, "symbol")
    ∷ (7, "target")
    ∷ (8, "val")
    ∷ (9, "value")
    ∷ (10, "void")
    ∷ (11, "addr")
    ∷ (12, "range")
    ∷ (13, "rangelist")
    ∷ (14, "register")
    ∷ (15, "seqnum")
    ∷ (16, "varnode")
    ∷ (17, "break")
    ∷ (18, "clang_document")
    ∷ (19, "funcname")
    ∷ (20, "funcproto")
    ∷ (21, "label")
    ∷ (22, "return_type")
    ∷ (23, "statement")
    ∷ (24, "syntax")
    ∷ (25, "vardecl")
    ∷ (26, "variable")
    ∷ (27, "op")
    ∷ (28, "sleigh")
    ∷ (29, "space")
    ∷ (30, "spaceid")
    ∷ (31, "spaces")
    ∷ (32, "space_base")
    ∷ (33, "space_other")
    ∷ (34, "space_overlay")
    ∷ (35, "space_unique")
    ∷ (36, "truncate_space")
    ∷ (37, "absolute_max_alignment")
    ∷ (38, "bitfield_packing")
    ∷ (39, "char_size")
    ∷ (40, "char_type")
    ∷ (41, "coretypes")
    ∷ (42, "data_organization")
    ∷ (43, "def")
    ∷ (44, "default_alignment")
    ∷ (45, "default_pointer_alignment")
    ∷ (46, "double_size")
    ∷ (47, "entry")
    ∷ (48, "enum")
    ∷ (49, "field")
    ∷ (50, "float_size")
    ∷ (51, "integer_size")
    ∷ (52, "long_double_size")
    ∷ (53, "long_long_size")
    ∷ (54, "long_size")
    ∷ (55, "machine_alignment")
    ∷ (56, "pointer_shift")
    ∷ (57, "pointer_size")
    ∷ (58, "short_size")
    ∷ (59, "size_alignment_map")
    ∷ (60, "type")
    ∷ (61, "type_alignment_enabled")
    ∷ (62, "typegrp")
    ∷ (63, "typeref")
    ∷ (64, "use_MS_convention")
    ∷ (65, "wchar_size")
    ∷ (66, "zero_length_boundary")
    ∷ (67, "collision")
    ∷ (68, "db")
    ∷ (69, "equatesymbol")
    ∷ (70, "externrefsymbol")
    ∷ (71, "facetsymbol")
    ∷ (72, "functionshell")
    ∷ (73, "hash")
    ∷ (74, "hole")
    ∷ (75, "labelsym")
    ∷ (76, "mapsym")
    ∷ (77, "parent")
    ∷ (78, "property_changepoint")
    ∷ (79, "rangeequalssymbols")
    ∷ (80, "scope")
    ∷ (81, "symbollist")
    ∷ (82, "high")
    ∷ (83, "bytes")
    ∷ (84, "string")
    ∷ (85, "stringmanage")
    ∷ (86, "comment")
    ∷ (87, "commentdb")
    ∷ (88, "text")
    ∷ (89, "addr_pcode")
    ∷ (90, "body")
    ∷ (91, "callfixup")
    ∷ (92, "callotherfixup")
    ∷ (93, "case_pcode")
    ∷ (94, "context")
    ∷ (95, "default_pcode")
    ∷ (96, "inject")
    ∷ (97, "injectdebug")
    ∷ (98, "inst")
    ∷ (99, "payload")
    ∷ (100, "pcode")
    ∷ (101, "size_pcode")
    ∷ (102, "bhead")
    ∷ (103, "block")
    ∷ (104, "blockedge")
    ∷ (105, "edge")
    ∷ (106, "parammeasures")
    ∷ (107, "proto")
    ∷ (108, "rank")
    ∷ (109, "constantpool")
    ∷ (110, "cpoolrec")
    ∷ (111, "ref")
    ∷ (112, "token")
    ∷ (113, "iop")
    ∷ (114, "unimpl")
    ∷ (115, "ast")
    ∷ (116, "function")
    ∷ (117, "highlist")
    ∷ (118, "jumptablelist")
    ∷ (119, "varnodes")
    ∷ (120, "context_data")
    ∷ (121, "context_points")
    ∷ (122, "context_pointset")
    ∷ (123, "context_set")
    ∷ (124, "set")
    ∷ (125, "tracked_pointset")
    ∷ (126, "tracked_set")
    ∷ (127, "constresolve")
    ∷ (128, "jumpassist")
    ∷ (129, "segmentop")
    ∷ (130, "address_shift_amount")
    ∷ (131, "aggressivetrim")
    ∷ (132, "compiler_spec")
    ∷ (133, "data_space")
    ∷ (134, "default_memory_blocks")
    ∷ (135, "default_proto")
    ∷ (136, "default_symbols")
    ∷ (137, "eval_called_prototype")
    ∷ (138, "eval_current_prototype")
    ∷ (139, "experimental_rules")
    ∷ (140, "flowoverridelist")
    ∷ (141, "funcptr")
    ∷ (142, "global")
    ∷ (143, "incidentalcopy")
    ∷ (144, "inferptrbounds")
    ∷ (145, "modelalias")
    ∷ []

unfoldable pub element_names_high : List (ℕ × String)
element_names_high =
    (146, "nohighptr")
    ∷ (147, "processor_spec")
    ∷ (148, "programcounter")
    ∷ (149, "properties")
    ∷ (150, "property")
    ∷ (151, "readonly")
    ∷ (152, "register_data")
    ∷ (153, "rule")
    ∷ (154, "save_state")
    ∷ (155, "segmented_address")
    ∷ (156, "spacebase")
    ∷ (157, "specextensions")
    ∷ (158, "stackpointer")
    ∷ (159, "volatile")
    ∷ (160, "group")
    ∷ (161, "internallist")
    ∷ (162, "killedbycall")
    ∷ (163, "likelytrash")
    ∷ (164, "localrange")
    ∷ (165, "model")
    ∷ (166, "param")
    ∷ (167, "paramrange")
    ∷ (168, "pentry")
    ∷ (169, "prototype")
    ∷ (170, "resolveprototype")
    ∷ (171, "retparam")
    ∷ (172, "returnsym")
    ∷ (173, "unaffected")
    ∷ (174, "aliasblock")
    ∷ (175, "allowcontextset")
    ∷ (176, "analyzeforloops")
    ∷ (177, "commentheader")
    ∷ (178, "commentindent")
    ∷ (179, "commentinstruction")
    ∷ (180, "commentstyle")
    ∷ (181, "conventionprinting")
    ∷ (182, "currentaction")
    ∷ (183, "defaultprototype")
    ∷ (184, "errorreinterpreted")
    ∷ (185, "errortoomanyinstructions")
    ∷ (186, "errorunimplemented")
    ∷ (187, "extrapop")
    ∷ (188, "ignoreunimplemented")
    ∷ (189, "indentincrement")
    ∷ (190, "inferconstptr")
    ∷ (191, "inline")
    ∷ (192, "inplaceops")
    ∷ (193, "integerformat")
    ∷ (194, "jumpload")
    ∷ (195, "maxinstruction")
    ∷ (196, "maxlinewidth")
    ∷ (197, "namespacestrategy")
    ∷ (198, "nocastprinting")
    ∷ (199, "noreturn")
    ∷ (200, "nullprinting")
    ∷ (201, "optionslist")
    ∷ (202, "param1")
    ∷ (203, "param2")
    ∷ (204, "param3")
    ∷ (205, "protoeval")
    ∷ (206, "setaction")
    ∷ (207, "setlanguage")
    ∷ (208, "structalign")
    ∷ (209, "togglerule")
    ∷ (210, "warning")
    ∷ (211, "basicoverride")
    ∷ (212, "dest")
    ∷ (213, "jumptable")
    ∷ (214, "loadtable")
    ∷ (215, "normaddr")
    ∷ (216, "normhash")
    ∷ (217, "startval")
    ∷ (218, "deadcodedelay")
    ∷ (219, "flow")
    ∷ (220, "forcegoto")
    ∷ (221, "calldest")
    ∷ (222, "multistagejump")
    ∷ (223, "override")
    ∷ (224, "protooverride")
    ∷ (225, "prefersplit")
    ∷ (226, "callgraph")
    ∷ (227, "node")
    ∷ (228, "localdb")
    ∷ (229, "doc")
    ∷ (230, "binaryimage")
    ∷ (231, "bytechunk")
    ∷ (232, "compiler")
    ∷ (233, "description")
    ∷ (234, "language")
    ∷ (236, "xml_savefile")
    ∷ (237, "raw_savefile")
    ∷ (239, "command_isnameused")
    ∷ (240, "command_getbytes")
    ∷ (241, "command_getcallfixup")
    ∷ (242, "command_getcallmech")
    ∷ (243, "command_getcallotherfixup")
    ∷ (244, "command_getcodelabel")
    ∷ (245, "command_getcomments")
    ∷ (246, "command_getcpoolref")
    ∷ (247, "command_getdatatype")
    ∷ (248, "command_getexternalref")
    ∷ (249, "command_getmappedsymbols")
    ∷ (250, "command_getnamespacepath")
    ∷ (251, "command_getpcode")
    ∷ (252, "command_getpcodeexecutable")
    ∷ (253, "command_getregister")
    ∷ (254, "command_getregistername")
    ∷ (255, "command_getstring")
    ∷ (256, "command_gettrackedregisters")
    ∷ (257, "command_getuseropname")
    ∷ (258, "blocksig")
    ∷ (259, "call")
    ∷ (260, "gensig")
    ∷ (261, "major")
    ∷ (262, "minor")
    ∷ (263, "copysig")
    ∷ (264, "settings")
    ∷ (265, "sig")
    ∷ (266, "signaturedesc")
    ∷ (267, "signatures")
    ∷ (268, "sigsettings")
    ∷ (269, "varsig")
    ∷ (270, "splitdatatype")
    ∷ (271, "jumptablemax")
    ∷ (272, "nanignore")
    ∷ (273, "datatype")
    ∷ (274, "consume")
    ∷ (275, "consume_extra")
    ∷ (276, "convert_to_ptr")
    ∷ (277, "goto_stack")
    ∷ (278, "join")
    ∷ (279, "datatype_at")
    ∷ (280, "position")
    ∷ (281, "varargs")
    ∷ (282, "hidden_return")
    ∷ (283, "join_per_primitive")
    ∷ (284, "braceformat")
    ∷ (285, "join_dual_class")
    ∷ (286, "internal_storage")
    ∷ (287, "extra_stack")
    ∷ (288, "consume_remaining")
    ∷ (289, "bitfield")
    ∷ (290, "baddatacount")
    ∷ (291, "XMLunknown")
    ∷ []
